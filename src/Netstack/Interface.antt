-- ===== src/Netstack/Interface.antt =====
-- src/netstack/mod.rs: `build_interface`. The `Interface` of the smoltcp crate, which the repository
-- does not hold, is a parameter.
pub mod Toy
use smoltcp_socks.Common.{
  ℕ, suc, zero, ◌≤◌, ◌≡◌, Bool, true, [], ◌∷◌, Option, none, some, Bytes, replicate, refl, arith,
  ◌∙◌, ap, sym,
}
use smoltcp_socks.Device.{Medium, medium_ip, DeviceCapabilities}

-- `smoltcp::wire::HardwareAddress`
pub data HardwareAddress : Type 0 where
  ip : HardwareAddress
  ethernet : Bytes → HardwareAddress

-- `new` panics (`none`) if the hardware address does not fit the device's medium. The routes' calls
-- say whether the table had room. `any_ip`, `ipv4_route`, `ipv6_route` (the default gateways) and
-- `spare_routes` serve the laws alone.
pub record InterfaceApi : Type 1 where
  pub Interface : Type 0
  pub new : HardwareAddress → DeviceCapabilities → ℕ → Option Interface
  pub set_any_ip : Bool → Interface → Interface
  pub add_default_ipv4_route : Bytes → Interface → Bool × Interface
  pub add_default_ipv6_route : Bytes → Interface → Bool × Interface
  pub any_ip : Interface → Bool
  pub ipv4_route : Interface → Option Bytes
  pub ipv6_route : Interface → Option Bytes
  pub spare_routes : Interface → ℕ

abbrev pub ipv4_unspecified : Bytes
ipv4_unspecified = 0 ∷ 0 ∷ 0 ∷ 0 ∷ []

abbrev pub ipv6_unspecified : Bytes
ipv6_unspecified = replicate 16 0

-- A fresh interface has no routes and room for two.
pub record InterfaceLaws (api : InterfaceApi) : Type 0 where
  pub new_fits :
      (caps : DeviceCapabilities) (now : ℕ)
      → caps.medium ≡ medium_ip
      → (i : api.Interface) × (api.new ip caps now ≡ some i) × (2 ≤ api.spare_routes i)
  pub set_any : (b : Bool) (i : api.Interface) → api.any_ip (api.set_any_ip b i) ≡ b
  pub any_spare :
      (b : Bool) (i : api.Interface) → api.spare_routes (api.set_any_ip b i) ≡ api.spare_routes i
  pub ipv4_added :
      (a : Bytes) (i : api.Interface)
      → 1 ≤ api.spare_routes i
      → api.ipv4_route (api.add_default_ipv4_route a i).1 ≡ some a
  pub ipv4_spare :
      (a : Bytes) (i : api.Interface)
      → api.spare_routes i ≤ suc (api.spare_routes (api.add_default_ipv4_route a i).1)
  pub ipv4_any :
      (a : Bytes) (i : api.Interface) → api.any_ip (api.add_default_ipv4_route a i).1 ≡ api.any_ip i
  pub ipv6_added :
      (a : Bytes) (i : api.Interface)
      → 1 ≤ api.spare_routes i
      → api.ipv6_route (api.add_default_ipv6_route a i).1 ≡ some a
  pub ipv6_any :
      (a : Bytes) (i : api.Interface) → api.any_ip (api.add_default_ipv6_route a i).1 ≡ api.any_ip i
  pub ipv6_ipv4 :
      (a : Bytes) (i : api.Interface)
      → api.ipv4_route (api.add_default_ipv6_route a i).1 ≡ api.ipv4_route i

module _ (api : InterfaceApi) where
  with_routes : Option api.Interface → Option api.Interface
  with_routes none = none
  with_routes (some i) =
      let i1 = api.set_any_ip true i in
      let i2 = (api.add_default_ipv4_route ipv4_unspecified i1).1 in
      some (api.add_default_ipv6_route ipv6_unspecified i2).1

  -- `now` is the time of the call.
  unfoldable pub build_interface : ℕ → DeviceCapabilities → Option api.Interface
  unfolding with_routes
  build_interface now caps = with_routes (api.new ip caps now)

  -- The stack takes packets for every address and has a default route of each family.
  pub record IsOpen (i : api.Interface) : Type 0 where
    pub any_address : api.any_ip i ≡ true
    pub ipv4_default : api.ipv4_route i ≡ some ipv4_unspecified
    pub ipv6_default : api.ipv6_route i ≡ some ipv6_unspecified

  pub build_interface-IsOpen :
      InterfaceLaws api
      → (now : ℕ) (caps : DeviceCapabilities) → caps.medium ≡ medium_ip
      → (i : api.Interface) × (build_interface now caps ≡ some i) × IsOpen i
  unfolding build_interface with_routes
  build_interface-IsOpen laws now caps h =
      let (i, e, two) = laws.new_fits caps now h in
      let i1 = api.set_any_ip true i in
      let i2 = (api.add_default_ipv4_route ipv4_unspecified i1).1 in
      let some_left = laws.ipv4_spare ipv4_unspecified i1 in
      (
        (api.add_default_ipv6_route ipv6_unspecified i2).1,
        ap with_routes e,
        record {
          any_address =
              laws.ipv6_any ipv6_unspecified i2
              ∙ laws.ipv4_any ipv4_unspecified i1
              ∙ laws.set_any true i;
          ipv4_default =
              laws.ipv6_ipv4 ipv6_unspecified i2
              ∙ laws.ipv4_added ipv4_unspecified i1 (omega (arith, two, laws.any_spare true i));
          ipv6_default =
              laws.ipv6_added ipv6_unspecified i2
                (omega (arith, some_left, two, laws.any_spare true i));
        },
      )
