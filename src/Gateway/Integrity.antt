-- ===== src/Gateway/Integrity.antt =====
-- internal/gateway/database.go: the keys of the tables under every operation, whatever fails.
use lucas.Base.{Bool, String, arith, Option-cases, inl, inr, ◌==◌}
use lucas.Gateway.Store.{
  ◌>>◌, User, Hub, Device, Database, Answer, good, bad, DbError, Action, pure, fail, ◌>>=◌, handle,
  wrap, Faults, statement, counted, empty_database,
}
use lucas.Gateway.Hubs.{with_hub_id}
use lucas.Gateway.Devices.{same_device}
use lucas.Gateway.Keys.{Ascend, Distinct}

abbrev pub same_hub : Hub → Hub → Bool
same_hub h = with_hub_id h.hub_id

abbrev pub same_key : Device → Device → Bool
same_key v = same_device v.hub_id v.device_id

abbrev pub same_name : User → User → Bool
same_name u v = v.username == u.username

abbrev pub same_api_key : User → User → Bool
same_api_key u v = v.api_key == u.api_key

-- The row ids ascend up to the last one that was given, and the columns of each UNIQUE constraint
-- tell the rows apart.
pub record IsKeyed (d : Database) : Type 0 where
  pub user_ids : Ascend (λ u. u.id) 0 d.last_user d.users
  pub hub_rows : Ascend (λ h. h.id) 0 d.last_hub d.hubs
  pub device_rows : Ascend (λ v. v.id) 0 d.last_device d.devices
  pub usernames : Distinct same_name d.users
  pub api_keys : Distinct same_api_key d.users
  pub hub_ids : Distinct same_hub d.hubs
  pub device_ids : Distinct same_key d.devices

pub record Keeps {A : Type 0} (m : Action A) : Type 0 where
  pub kept : (d : Database) → IsKeyed d → IsKeyed (m d).1

pub empty_database-IsKeyed : IsKeyed empty_database
empty_database-IsKeyed = record {
  user_ids = omega arith;
  hub_rows = omega arith;
  device_rows = omega arith;
  usernames = tt;
  api_keys = tt;
  hub_ids = tt;
  device_ids = tt;
}

counted-IsKeyed : (d : Database) → IsKeyed d → IsKeyed (counted d)
counted-IsKeyed d k = record {
  user_ids = k.user_ids;
  hub_rows = k.hub_rows;
  device_rows = k.device_rows;
  usernames = k.usernames;
  api_keys = k.api_keys;
  hub_ids = k.hub_ids;
  device_ids = k.device_ids;
}

pub fail-Keeps : {A : Type 0} (e : DbError) → Keeps (fail {A = A} e)
unfolding fail
fail-Keeps e = record { kept = λ d k. k }

module _ {A : Type 0} where
  pub pure-Keeps : (a : A) → Keeps (pure a)
  unfolding pure
  pure-Keeps a = record { kept = λ d k. k }

  pub look-Keeps : (f : Database → Answer A) → Keeps (λ d. (f d, d))
  look-Keeps f = record { kept = λ d k. k }

  pub asks-Keeps : (f : Database → A) → Keeps (λ d. pure (f d) d)
  unfolding pure
  asks-Keeps f = record { kept = λ d k. k }

  pub wrap-Keeps : (text : String) (m : Action A) → Keeps m → Keeps (wrap text m)
  unfolding wrap
  wrap-Keeps text m h = record { kept = λ d k. h.kept d k }

  kept_statement :
      (faults : Faults) (m : Action A) (d : Database)
      → Keeps m
      → IsKeyed d
      → IsKeyed (statement faults m d).1
  unfolding statement fail
  kept_statement faults m d h k = elim (Option-cases (faults d.statements)) [
    | inl e ↦ rw (e, statement) (h.kept (counted d) (counted-IsKeyed d k))
    | inr (text, e) ↦ rw (e, statement) (counted-IsKeyed d k)
  ]

  pub statement-Keeps : (faults : Faults) (m : Action A) → Keeps m → Keeps (statement faults m)
  statement-Keeps faults m h = record { kept = λ d k. kept_statement faults m d h k }

  module _ {B : Type 0} where
    handled-Keeps :
        (f : A → Action B) (g : DbError → Action B) (o : Answer A × Database)
        → ((a : A) → Keeps (f a))
        → ((e : DbError) → Keeps (g e))
        → IsKeyed o.1
        → IsKeyed (handle (λ d. o) f g o.1).1
    unfolding handle
    handled-Keeps f g (good a, d) hf hg k = (hf a).kept d k
    handled-Keeps f g (bad e, d) hf hg k = (hg e).kept d k

    pub handle-Keeps :
        (m : Action A) (f : A → Action B) (g : DbError → Action B)
        → Keeps m
        → ((a : A) → Keeps (f a))
        → ((e : DbError) → Keeps (g e))
        → Keeps (handle m f g)
    unfolding handle
    handle-Keeps m f g hm hf hg = record {
      kept = λ d k. handled-Keeps f g (m d) hf hg (hm.kept d k);
    }

    pub >>=-Keeps :
        (m : Action A) (f : A → Action B) → Keeps m → ((a : A) → Keeps (f a)) → Keeps (m >>= f)
    unfolding ◌>>=◌ handle
    >>=-Keeps m f hm hf = record {
      kept = λ d k. handled-Keeps f fail (m d) hf fail-Keeps (hm.kept d k);
    }

pub >>-Keeps : {A B : Type 0} (m : Action A) (n : Action B) → Keeps m → Keeps n → Keeps (m >> n)
>>-Keeps m n hm hn = >>=-Keeps m (λ _. n) hm (λ _. hn)
