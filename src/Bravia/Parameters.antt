-- ===== src/Bravia/Parameters.antt =====
-- internal/bravia/remote.go: which actions there are, and which parameters they take.
use lucas.Base.{
  HasDistinctKeys, str_dec, String, List, [], ◌∷◌, Option, none, some, Map, ◌≡◌, ◌≢◌, ◌↔◌, refl,
  arith, lookup,
}
use lucas.Hermes.Protocol.{Json, null, bool, num, str, arr, obj}
use lucas.Bravia.Codes.{remote_action_map}
use lucas.Bravia.World.{World, Fallible, good, bad}
use lucas.Bravia.Remote.{
  with_status, with_volume, volume_parameters, mute_parameters, other_parameters,
  build_control_parameters,
}

-- A number or a text.
abbrev pub IsVolume : Option Json → Type 0
IsVolume (some (num v)) = Unit
IsVolume (some (str v)) = Unit
IsVolume _ = ⊥

-- A truth value or a text.
abbrev pub IsStatus : Option Json → Type 0
IsStatus (some (bool b)) = Unit
IsStatus (some (str s)) = Unit
IsStatus _ = ⊥

abbrev pub param : String → Option (Map Json) → Option Json
param key none = none
param key (some m) = lookup key m

abbrev pub IsGood : Fallible (List (Map String)) → Type 0
IsGood r = (params : List (Map String)) × (r ≡ good params)

bad_ne : {e : String} {params : List (Map String)} → ¬ (bad e ≡ good params)
bad_ne q = cc

refused : {e : String} {P : Type 0} → (P → ⊥) → IsGood (bad e) ↔ P
refused no_p = ((λ (params, q). absurd (bad_ne q)), (λ p. absurd (no_p p)))

accepted : {params : List (Map String)} {P : Type 0} → P → IsGood (good params) ↔ P
accepted {params} p = ((λ _. p), (λ _. (params, refl)))

module _ (w : World) where
  with_volume_iff : (o : Option Json) → IsGood (with_volume w o) ↔ IsVolume o
  with_volume_iff (some (num v)) = accepted tt
  with_volume_iff (some (str v)) = accepted tt
  with_volume_iff (some null) = refused (λ v. v)
  with_volume_iff (some (bool b)) = refused (λ v. v)
  with_volume_iff (some (arr xs)) = refused (λ v. v)
  with_volume_iff (some (obj m)) = refused (λ v. v)
  with_volume_iff none = refused (λ v. v)

  with_status_iff : (o : Option Json) → IsGood (with_status w o) ↔ IsStatus o
  with_status_iff (some (bool b)) = accepted tt
  with_status_iff (some (str s)) = accepted tt
  with_status_iff (some null) = refused (λ v. v)
  with_status_iff (some (num n)) = refused (λ v. v)
  with_status_iff (some (arr xs)) = refused (λ v. v)
  with_status_iff (some (obj m)) = refused (λ v. v)
  with_status_iff none = refused (λ v. v)

  volume_parameters_iff :
      (params : Option (Map Json))
      → IsGood (volume_parameters w params) ↔ IsVolume (param "volume" params)
  unfolding volume_parameters
  volume_parameters_iff none = refused (λ v. v)
  volume_parameters_iff (some m) = with_volume_iff (lookup "volume" m)

  mute_parameters_iff :
      (params : Option (Map Json))
      → IsGood (mute_parameters w params) ↔ IsStatus (param "status" params)
  unfolding mute_parameters
  mute_parameters_iff none = refused (λ v. v)
  mute_parameters_iff (some m) = with_status_iff (lookup "status" m)

  other_parameters-IsGood : (params : Option (Map Json)) → IsGood (other_parameters w params)
  unfolding other_parameters
  other_parameters-IsGood none = (_, refl)
  other_parameters-IsGood (some m) = (_, refl)

  module _ (params : Option (Map Json)) where
    module _ (action : String) where
      built_volume :
          action ≡ "set_volume"
          → build_control_parameters w action params ≡ volume_parameters w params
      unfolding build_control_parameters
      built_volume v = ground (arith, v)

      mute-ne-volume : action ≡ "set_mute" → action ≢ "set_volume"
      mute-ne-volume m v = cc

      built_mute :
          action ≡ "set_mute" → build_control_parameters w action params ≡ mute_parameters w params
      unfolding build_control_parameters
      built_mute m = ground (arith, m, mute-ne-volume m)

      built_other :
          action ≢ "set_volume"
          → action ≢ "set_mute"
          → build_control_parameters w action params ≡ other_parameters w params
      unfolding build_control_parameters
      built_other v m = ground (arith, v, m)

      -- The parameters of a control action are accepted exactly if the action is `set_volume` with
      -- a volume that is a number or a text, `set_mute` with a status that is a truth value or a
      -- text, or another action.
      pub build_control_parameters_iff : IsGood (build_control_parameters w action params) ↔ (
          (action ≡ "set_volume" → IsVolume (param "volume" params))
          × (action ≡ "set_mute" → IsStatus (param "status" params)))
      build_control_parameters_iff = elim (str_dec action "set_volume") [
        | yes v ↦ rw (built_volume v) (
          (λ g. ((λ _. (volume_parameters_iff params).0 g), (λ m. absurd (mute-ne-volume m v)))),
          (λ h. (volume_parameters_iff params).1 (h.0 v)),
        )
        | no not_v ↦ elim (str_dec action "set_mute") [
          | yes m ↦ rw (built_mute m) (
            (λ g. ((λ v. absurd (not_v v)), (λ _. (mute_parameters_iff params).0 g))),
            (λ h. (mute_parameters_iff params).1 (h.1 m)),
          )
          | no not_m ↦ rw (built_other not_v not_m) (
            (λ _. ((λ v. absurd (not_v v)), (λ m. absurd (not_m m)))),
            (λ _. other_parameters-IsGood params),
          )
        ]
      ]

abbrev swapped : Map String → Map String
swapped [] = []
swapped ((k, v) ∷ m) = (v, k) ∷ swapped m

swapped-found :
    (k code : String) (m : Map String) → lookup k m ≡ some code → ¬ (lookup code (swapped m) ≡ none)
unfolding lookup
swapped-found k code [] e none_found = cc
swapped-found k code ((j, v) ∷ m) e none_found =
    ground (arith, e, none_found, swapped-found k code m)

same_key :
    (k j code : String) (m : Map String)
    → HasDistinctKeys (swapped m)
    → lookup k m ≡ some code
    → lookup j m ≡ some code
    → k ≡ j
unfolding lookup
same_key k j code [] h e q = cc
same_key k j code ((i, v) ∷ m) h e q =
    ground
      (arith, h.0, e, q, same_key k j code m h.1, swapped-found k code m, swapped-found j code m)

codes-HasDistinctKeys : HasDistinctKeys (swapped remote_action_map)
unfolding remote_action_map lookup str_dec
codes-HasDistinctKeys = ground arith

-- No two remote actions stand for the same key.
pub remote_action_map_injective :
    (action other code : String)
    → lookup action remote_action_map ≡ some code
    → lookup other remote_action_map ≡ some code
    → action ≡ other
remote_action_map_injective action other code =
    same_key action other code remote_action_map codes-HasDistinctKeys
