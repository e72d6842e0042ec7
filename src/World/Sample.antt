-- ===== src/World/Sample.antt =====
-- Test data: a world in which every write goes through, time stands still and what arrives is given.
use custom_vpn_implementatio.Common.{true, false, List, []}
use custom_vpn_implementatio.World.{World, Event}

abbrev pub calm : List Event → World
calm es = record {
  incoming = es;
  outgoing = [];
  writable = λ i. true;
  sends = 0;
  random = λ i. i;
  drawn = 0;
  clock = λ i. 1000;
  readings = 0;
  closed = false;
}
