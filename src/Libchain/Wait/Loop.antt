-- ===== src/Libchain/Wait/Loop.antt =====
-- The loop of `__fpga_common_polling` ends, lib/libfpga/src/libfpgacommon.c.
use hardware_drivers.Prelude.{
  ℕ, zero, suc, ◌+◌, ◌≤◌, ◌<◌, ◌≡◌, ◌≢◌, ◌⊎◌, refl, arith, Bool, true, false, Option, some, ltb,
  Bool-cases, inl, inr,
}
use hardware_drivers.Libchain.{Host}
use hardware_drivers.Libchain.Wait.{Poll, met, again, stopped, Outside, next_round, common_polling}

-- The time that the sleeps after some rounds took.
abbrev pub slept_for : Outside → (round n : ℕ) → ℕ
slept_for o round zero = 0
slept_for o round (suc n) = o.slept round + slept_for o (suc round) n

-- The host at the n-th look after a round, where `look` is what a look does to it.
abbrev pub at_look : Outside → (look : Host → Host) → (round : ℕ) → Host → (n : ℕ) → Host
at_look o look round h zero = h
at_look o look round h (suc n) = at_look o look (suc round) (o.others round (look h)) n

-- A polling that ends at look `rounds`: it has the result of that look, which is positive only if
-- the time was over then, and each look before was positive and came before the time was over.
pub record Polled (o : Outside) (poll_of : Host → Poll) (look : Host → Host) (to : ℕ)
    (Inv : Host → Type 0) (round elapsed : ℕ) (h : Host) (out : Option (Poll × Host)) : Type 0 where
  pub rounds : ℕ
  pub result :
      out ≡ some (poll_of (at_look o look round h rounds), look (at_look o look round h rounds))
  pub kept : Inv (at_look o look round h rounds)
  pub late :
      poll_of (at_look o look round h rounds) ≡ again → to ≤ elapsed + slept_for o round rounds
  pub early :
      (k : ℕ)
      → k < rounds
      → (poll_of (at_look o look round h k) ≡ again) × (elapsed + slept_for o round k < to)

Poll-cases : (p : Poll) → (p ≡ again) ⊎ (p ≢ again)
Poll-cases met = inr (λ q. cc)
Poll-cases again = inl refl
Poll-cases (stopped x) = inr (λ q. cc)

stays :
    (h' : Host) (next : Host → Option (Poll × Host)) (p : Poll)
    → p ≢ again
    → (b : Bool) → next_round (some (p, h')) b next ≡ some (p, h')
stays h' next met n b = refl
stays h' next again n b = absurd (n refl)
stays h' next (stopped x) n b = refl

module _ (o : Outside) (clb : Host → Option (Poll × Host)) (poll_of : Host → Poll)
    (look : Host → Host) (to : ℕ) (Inv : Host → Type 0)
    (calls : (h : Host) → Inv h → (clb h ≡ some (poll_of h, look h)) × Inv (look h))
    (kept : (k : ℕ) (h : Host) → Inv h → Inv (o.others k h))
    (sleeps : (k : ℕ) → 0 < o.slept k) where
  stop_now :
      (round elapsed : ℕ) (h : Host) (next : Host → Option (Poll × Host))
      → Inv h
      → poll_of h ≢ again
      → Polled o poll_of look to Inv round elapsed h (next_round (clb h) (ltb elapsed to) next)
  stop_now round elapsed h next i n = record {
    rounds = 0;
    result = rw (calls h i).0 (stays (look h) next (poll_of h) n (ltb elapsed to));
    kept = i;
    late = λ q. absurd (n q);
    early = λ k q. absurd (omega arith);
  }

  stop_late :
      (round elapsed : ℕ) (h : Host) (next : Host → Option (Poll × Host))
      → Inv h
      → poll_of h ≡ again
      → ltb elapsed to ≡ false
      → Polled o poll_of look to Inv round elapsed h (next_round (clb h) (ltb elapsed to) next)
  stop_late round elapsed h next i a f = record {
    rounds = 0;
    result = rw ((calls h i).0, a, f) refl;
    kept = i;
    late = λ q. ground arith;
    early = λ k q. absurd (omega arith);
  }

  go_on :
      (round elapsed : ℕ) (h : Host) (next : Host → Option (Poll × Host))
      → Inv h
      → poll_of h ≡ again
      → ltb elapsed to ≡ true
      → Polled o poll_of look to Inv
          (suc round)
          (elapsed + o.slept round)
          (o.others round (look h))
          (next (look h))
      → Polled o poll_of look to Inv round elapsed h (next_round (clb h) (ltb elapsed to) next)
  go_on round elapsed h next i a t r = record {
    rounds = suc r.rounds;
    result = rw ((calls h i).0, a, t) r.result;
    kept = r.kept;
    late = λ q. omega (arith, r.late q);
    early = earlier;
  }
    where
      earlier :
          (k : ℕ)
          → k < suc r.rounds
          → (poll_of (at_look o look round h k) ≡ again) × (elapsed + slept_for o round k < to)
      earlier zero q = (a, ground arith)
      earlier (suc k) q = let (b, c) = r.early k (omega arith) in (b, omega (arith, c))

  -- A callback that always returns is called until it is content, has failed or the time is over:
  -- a round for each nanosecond is enough.
  pub polling_ends :
      (n round elapsed : ℕ) (h : Host)
      → Inv h
      → to ≤ elapsed + n
      → Polled o poll_of look to Inv round elapsed h
          (common_polling (suc n) o clb round elapsed to h)
  unfolding common_polling
  polling_ends zero round elapsed h i enough = elim (Poll-cases (poll_of h)) [
    | inl q ↦ stop_late round elapsed h _ i q (ground (arith, enough))
    | inr n ↦ stop_now round elapsed h _ i n
  ]
  polling_ends (suc n) round elapsed h i enough = elim (Poll-cases (poll_of h)) [
    | inl q ↦ elim (Bool-cases (ltb elapsed to)) [
      | inl t ↦ go_on round elapsed h _ i q t (
          polling_ends n (suc round) (elapsed + o.slept round) (o.others round (look h))
            (kept round (look h) (calls h i).1) (omega (arith, sleeps round)))
      | inr f ↦ stop_late round elapsed h _ i q f
    ]
    | inr n' ↦ stop_now round elapsed h _ i n'
  ]
