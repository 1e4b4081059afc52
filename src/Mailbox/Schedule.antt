-- ===== src/Mailbox/Schedule.antt =====
-- internal/mailbox/copy.go: how the pipeline ends, and the fuel of its last rounds.
use go_boxcopy.Base.{
  arith, zero, suc, ◌≤◌, drop, [], ◌∷◌, ℕ, String, ◌≡◌, refl, Bool, true, false, List, Option, none,
  some, length, inl, inr, Bool-cases, Option-cases, if◌then◌else◌,
}
use go_boxcopy.Imap.Api.{Api}
use go_boxcopy.Mailbox.Data.{Job}
use go_boxcopy.Mailbox.Pipeline.{
  check, fetch_batch, Batch, is_err, Copier, Pipe, copy_messages, copy_batch, copy_batches,
  fetch_rest, finish,
}

pub length-drop_le : {A : Type 0} (n : ℕ) (xs : List A) → length (drop n xs) ≤ length xs
length-drop_le zero xs = omega arith
length-drop_le (suc n) [] = omega arith
length-drop_le (suc n) (x ∷ xs) = omega (arith, length-drop_le n xs)

module _ (api : Api) (job : Job) (folder : String) where
  open api use {World, Conn}

  -- What the copier has done once it is through with its batch and the channel.
  abbrev pub drained : Pipe Conn World → Copier Conn World
  drained p =
      copy_batches api job folder p.channel (copy_messages api job folder p.current p.copier)

  unfoldable pub finish_from : Bool → Option Batch → List ℕ → Copier Conn World → Copier Conn World
  finish_from true pending todo c = c
  finish_from false none todo c = fetch_rest api job folder (length todo) todo c
  finish_from false (some b) todo c =
      let c' = copy_batch api job folder b c in
      if is_err b then c' else fetch_rest api job folder (length todo) todo c'

  pub finish_lem :
      (p : Pipe Conn World)
      → finish api job folder p ≡ finish_from p.closed p.pending p.todo (drained p)
  unfolding finish finish_from
  finish_lem p = elim (Bool-cases p.closed) [
    | inl e ↦ rw (e, finish) refl
    | inr e ↦ elim (Option-cases p.pending) [
      | inl f ↦ rw (e, f, finish) refl
      | inr (b, f) ↦ rw (e, f, finish) refl
    ]
  ]

  any_enough :
      (fuel more : ℕ) (todo : List ℕ) (c : Copier Conn World)
      → length todo ≤ fuel
      → length todo ≤ more
      → fetch_rest api job folder fuel todo c ≡ fetch_rest api job folder more todo c
  unfolding fetch_rest
  any_enough zero zero [] c h g = refl
  any_enough zero (suc more) [] c h g = refl
  any_enough (suc fuel) zero [] c h g = refl
  any_enough (suc fuel) (suc more) [] c h g = refl
  any_enough zero more (uid ∷ uids) c h g = absurd (omega (arith, h))
  any_enough (suc fuel) zero (uid ∷ uids) c h g = absurd (omega (arith, g))
  any_enough (suc fuel) (suc more) (uid ∷ uids) c h g =
      elim (Option-cases (check api job folder c.session).0) [
        | inr (d, e) ↦ rw (e, fetch_rest) refl
        | inl e ↦
            let b = fetch_batch api job folder (uid ∷ uids) (check api job folder c.session).1 in
            let k = length-drop_le 49 uids in
            elim (Bool-cases (is_err b.0)) [
              | inl f ↦ rw (e, f, fetch_rest) refl
              | inr f ↦ rw (e, f, fetch_rest) (any_enough fuel more _ _ (omega arith) (omega arith))
            ]
      ]

  -- Fuel for as many rounds as there are UIDs to fetch is enough: no greater amount changes the end.
  pub fetch_rest_enough :
      (fuel : ℕ) (todo : List ℕ) (c : Copier Conn World)
      → length todo ≤ fuel
      → fetch_rest api job folder fuel todo c ≡ fetch_rest api job folder (length todo) todo c
  fetch_rest_enough fuel todo c h = any_enough fuel (length todo) todo c h (omega arith)
