-- ===== src/Hermes/Client/Latency.antt =====
-- internal/hermes/client.go: what the client remembers of its latencies.
use lucas.Base.{
  drop_one-drop, lt→ltb, le→ltb_false, dec_lt, ◌∙◌, length-drop, drop-append, append-nil, sym, ℕ,
  suc, ◌-◌, List, [], ◌∷◌, ◌++◌, ◌≡◌, refl, ap, arith, length, drop, length-append, append_assoc,
}
use lucas.Hermes.Client.State.{new_client, HermesClient, record_latency, sum, trim}

-- The latencies of one request after the other.
unfoldable pub record_all : HermesClient → List ℕ → HermesClient
unfolding record_latency
record_all c [] = c
record_all c (l ∷ ls) = record_all (record_latency c l) ls

-- The newest `n` of a list.
abbrev pub newest : ℕ → List ℕ → List ℕ
newest n ls = drop (length ls - n) ls

trim-newest : (ls : List ℕ) (l : ℕ) → trim (newest 100 ls ++ l ∷ []) ≡ newest 100 (ls ++ l ∷ [])
trim-newest ls l =
    let n = length ls - 100 in
    let all : newest 100 ls ++ l ∷ [] ≡ drop n (ls ++ l ∷ []) =
      sym (drop-append n ls (l ∷ []) (omega arith)) in
    let size : length (drop n (ls ++ l ∷ [])) ≡ suc (length ls) - n =
      length-drop n (ls ++ l ∷ []) ∙ ap (λ k. k - n) (omega (arith, length-append ls (l ∷ []))) in
    let more : length (ls ++ l ∷ []) ≡ suc (length ls) = omega (arith, length-append ls (l ∷ [])) in
    rw (all, more)
      (elim (dec_lt (length ls) 100) [
        | yes few ↦
            let same : n ≡ suc (length ls) - 100 = omega arith in
            rw (le→ltb_false 100 (length (drop n (ls ++ l ∷ []))) (omega (arith, size)))
              (ap (λ k. drop k (ls ++ l ∷ [])) same)
        | no many ↦
            let next : suc n ≡ suc (length ls) - 100 = omega arith in
            rw (lt→ltb 100 (length (drop n (ls ++ l ∷ []))) (omega (arith, size)))
              (drop_one-drop n (ls ++ l ∷ []) ∙ ap (λ k. drop k (ls ++ l ∷ [])) next)
      ])

-- What is kept is the newest hundred of the history, and the average is theirs.
pub record Remembers (c : HermesClient) (history : List ℕ) : Type 0 where
  pub kept : c.latencies ≡ newest 100 history
  pub averaged : c.stats.average_latency ≡ (sum c.latencies, length c.latencies)

record_latency-Remembers :
    (c : HermesClient) (history : List ℕ) (l : ℕ)
    → Remembers c history
    → Remembers (record_latency c l) (history ++ l ∷ [])
unfolding record_latency
record_latency-Remembers c history l r = record {
  kept = rw r.kept (trim-newest history l);
  averaged = refl;
}

record_all-Remembers :
    (c : HermesClient) (history ls : List ℕ)
    → Remembers c history
    → Remembers (record_all c ls) (history ++ ls)
unfolding record_all
record_all-Remembers c history [] r = rw append-nil r
record_all-Remembers c history (l ∷ ls) r = rw (← append_assoc history (l ∷ []) ls) (
    record_all-Remembers (record_latency c l) (history ++ l ∷ []) ls
      (record_latency-Remembers c history l r))

-- After any latencies, recorded one after the other from a new client on, the client keeps the
-- last hundred of them, or all if there are fewer, and its average is the sum of what it keeps
-- over their number, from the first latency on.
pub record_all-new_client :
    (now first : ℕ) (ls : List ℕ)
    → let d = record_all (new_client now) (first ∷ ls) in
      (d.latencies ≡ newest 100 (first ∷ ls))
      × (d.stats.average_latency ≡ (sum d.latencies, length d.latencies))
unfolding record_all new_client record_latency
record_all-new_client now first ls =
    let r =
      record_all-Remembers (record_latency (new_client now) first) (first ∷ []) ls
        (record { kept = refl; averaged = refl }) in
    (r.kept, r.averaged)
