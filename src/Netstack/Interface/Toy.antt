-- ===== src/Netstack/Interface/Toy.antt =====
-- A concrete interface that meets the laws of Netstack/Interface.antt.
use smoltcp_socks.Common.{refl, Bool, true, false, Option, none, some, Bytes, arith}
use smoltcp_socks.Netstack.Interface.{InterfaceApi, InterfaceLaws}

-- An interface that knows its routes, and takes any hardware address.
pub record ToyInterface : Type 0 where
  pub any_ip : Bool
  pub ipv4_route : Option Bytes
  pub ipv6_route : Option Bytes

abbrev pub toy_api : InterfaceApi
toy_api = record {
  Interface = ToyInterface;
  new = λ a caps now. some (record { any_ip = false; ipv4_route = none; ipv6_route = none });
  set_any_ip = λ b i. record i { any_ip = b };
  add_default_ipv4_route = λ a i. (true, record i { ipv4_route = some a });
  add_default_ipv6_route = λ a i. (true, record i { ipv6_route = some a });
  any_ip = λ i. i.any_ip;
  ipv4_route = λ i. i.ipv4_route;
  ipv6_route = λ i. i.ipv6_route;
  spare_routes = λ i. 2;
}

pub toy_api_laws : InterfaceLaws toy_api
toy_api_laws = record {
  new_fits = λ caps now h.
      (record { any_ip = false; ipv4_route = none; ipv6_route = none }, refl, omega arith);
  set_any = λ b i. refl;
  any_spare = λ b i. refl;
  ipv4_added = λ a i h. refl;
  ipv4_spare = λ a i. omega arith;
  ipv4_any = λ a i. refl;
  ipv6_added = λ a i h. refl;
  ipv6_any = λ a i. refl;
  ipv6_ipv4 = λ a i. refl;
}
