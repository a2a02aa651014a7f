-- ===== src/Examples/Adapters.antt =====
-- The theorems on adapters at one Ethernet adapter that goes down.
use native_dns.Prelude.{Bool, true, false, List, [], ◌∷◌, codes}
use native_dns.Network.Interfaces.{InterfaceInfo, NetworkSnapshot, Enumeration, listed, failed}

abbrev pub ethernet : InterfaceInfo
ethernet = record {
  id = codes "{E}";
  name = codes "Ethernet";
  description = [];
  dns_suffix = [];
  luid = 1;
  index4 = 7;
  index6 = 7;
  metric4 = 25;
  metric6 = 25;
  mtu = 1500;
  up = true;
  loopback = false;
  captive_portal = false;
  addresses = [];
  dns_servers = codes "9.9.9.9" ∷ [];
  gateways = [];
}

abbrev pub connected : NetworkSnapshot
connected = record { generation = 4; interfaces = ethernet ∷ []; error = [] }

abbrev events : List (Bool × Enumeration)
events = (false, listed (ethernet ∷ [])) ∷ (false, failed (codes "denied")) ∷ (true, listed []) ∷ []
