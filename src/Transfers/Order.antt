-- ===== src/Transfers/Order.antt =====
-- submitPendingImplicitTransfers of src/libusb_uac_driver.cpp and the order of the transfers.
use liballa.Base.{
  ℕ, ◌≡◌, refl, ap, ap₂, Bool-cases, inl, inr, Bool, List, [], ◌∷◌, ◌++◌, Option, none, some, arith,
}
use liballa.Transfers.{Engine, Transfer, prepare_implicit_transfer}
use liballa.Transfers.Submit.{Submitted, submit_round, submit_loop, note_submitted}

-- Which transfers they are.
unfoldable pub ids : List Transfer → List ℕ
ids [] = []
ids (xfr ∷ rest) = xfr.id ∷ ids rest

unfoldable pub waiting_ids : List (Transfer × ℕ) → List ℕ
waiting_ids [] = []
waiting_ids ((xfr, since) ∷ rest) = xfr.id ∷ waiting_ids rest

prepared_id :
    (now : ℕ) (xfr filled : Transfer) (e : Engine)
    → (prepare_implicit_transfer now xfr e).1 ≡ some filled
    → filled.id ≡ xfr.id
unfolding prepare_implicit_transfer
prepared_id now xfr filled e h = ground arith

module _ (accepts : Transfer → Bool) where
  -- A round keeps the order if the rounds after it do.
  round_order :
      (now : ℕ) (xfr : Transfer) (since : ℕ) (rest : List (Transfer × ℕ)) (e : Engine)
      (outcome : Option Transfer) (next : Engine → Submitted)
      → ((filled : Transfer) → outcome ≡ some filled → filled.id ≡ xfr.id)
      → ((e' : Engine) → ids (next e').taken ++ waiting_ids (next e').waiting ≡ waiting_ids rest)
      → let r = submit_round accepts now xfr since rest e outcome next in
        ids r.taken ++ waiting_ids r.waiting ≡ xfr.id ∷ waiting_ids rest
  unfolding submit_round ids waiting_ids
  round_order now xfr since rest e none next same later = refl
  round_order now xfr since rest e (some filled) next same later =
      elim (Bool-cases (accepts filled)) [
        | inl taken ↦
            rw taken (ap₂ ◌∷◌ (same filled refl) (later (note_submitted now since filled e)))
        | inr refused ↦ rw refused (ap (λ n. n ∷ waiting_ids rest) (same filled refl))
      ]

  -- The transfers that libusb took, followed by those that still wait, are the transfers that
  -- waited, in the same order: none overtakes another, and none is lost or sent twice; also where a
  -- submission fails.
  pub submit_loop_order :
      (now : ℕ) (waiting : List (Transfer × ℕ)) (e : Engine)
      → let r = submit_loop accepts now waiting e in
        ids r.taken ++ waiting_ids r.waiting ≡ waiting_ids waiting
  unfolding submit_loop ids waiting_ids
  submit_loop_order now [] e = refl
  submit_loop_order now ((xfr, since) ∷ rest) e =
      let (e', outcome) = prepare_implicit_transfer now xfr e in
      round_order now xfr since rest e' outcome (submit_loop accepts now rest)
        (λ filled h. prepared_id now xfr filled e h) (λ later. submit_loop_order now rest later)
