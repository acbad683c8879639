-- ===== src/Gateway/Providers.antt =====
-- internal/gateway/broker_service.go: the registry after a hub's services are removed.
use lucas.Base.{
  Bool, false, not, ◌&&◌, ◌||◌, String, List, [], ◌∷◌, Option, none, some, ◌≡◌, refl, arith, ◌==◌,
  HasDistinctKeys, lookup, List-cases, inl, inr,
}
use lucas.Gateway.Registry.{
  Services, ServiceProvider, DeviceService, get_service, remove_hub_services, without_hub,
}

-- Whether the hub is among the providers.
unfoldable pub is_provider : String → List ServiceProvider → Bool
is_provider hub_id [] = false
is_provider hub_id (p ∷ ps) = p.hub_id == hub_id || is_provider hub_id ps

abbrev provides_it : String → Option DeviceService → Bool
provides_it hub_id none = false
provides_it hub_id (some service) = is_provider hub_id service.providers

-- Whether the hub provides the service of that name.
unfoldable pub provides : String → String → Services → Bool
unfolding is_provider get_service
provides hub_id name sr = provides_it hub_id (get_service name sr)

is_provider-without_hub :
    (asked hub_id : String) (ps : List ServiceProvider)
    → is_provider asked (without_hub hub_id ps) ≡ (not (hub_id == asked) && is_provider asked ps)
unfolding is_provider without_hub
is_provider-without_hub asked hub_id [] = ground arith
is_provider-without_hub asked hub_id (p ∷ ps) =
    ground (arith, is_provider-without_hub asked hub_id ps)

lookup-remove_none :
    (name hub_id : String) (sr : Services)
    → lookup name sr ≡ none
    → lookup name (remove_hub_services hub_id sr) ≡ none
unfolding lookup remove_hub_services
lookup-remove_none name hub_id [] h = refl
lookup-remove_none name hub_id ((n, s) ∷ sr) h =
    elim (List-cases (without_hub hub_id s.providers)) [
      | inl e ↦ rw e (ground (arith, lookup-remove_none name hub_id sr))
      | inr (p, ps, e) ↦ rw e (ground (arith, lookup-remove_none name hub_id sr))
    ]

-- In a registry whose names are distinct: after a hub's services are removed, it provides nothing,
-- and every other hub provides what it did.
pub provides-remove_hub_services :
    (asked name hub_id : String) (sr : Services)
    → HasDistinctKeys sr
    → provides asked name (remove_hub_services hub_id sr)
      ≡ (not (hub_id == asked) && provides asked name sr)
unfolding provides remove_hub_services lookup
provides-remove_hub_services asked name hub_id [] h = ground arith
provides-remove_hub_services asked name hub_id ((n, s) ∷ sr) h =
    let rest = provides-remove_hub_services asked name hub_id sr h.1 in
    let here = is_provider-without_hub asked hub_id s.providers in
    let gone = lookup-remove_none n hub_id sr h.0 in
    elim (List-cases (without_hub hub_id s.providers)) [
      | inl e ↦ rw e (ground (arith, rest, here, gone))
      | inr (p, ps, e) ↦ rw e (ground (arith, rest, here))
    ]
