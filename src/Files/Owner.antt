-- ===== src/Files/Owner.antt =====
-- Several open files: which file holds which queue, and what a call on one of them has to keep.
pub mod Outcome
pub mod Calls
pub mod Links
pub mod Returns
pub mod Reached
use hardware_drivers.Prelude.{
  ℕ, ◌<◌, ◌≡◌, ◌≢◌, refl, ap, sym, ◌∙◌, Bool, true, false, Option, none, some, ◌⊎◌, inl, inr,
  Bool-cases, ℕ_discrete, update, arith, ◌==◌, ==_iff,
}
use hardware_drivers.Device.{Dev, Dir, QueueStatus, free, used, Side, queue_at, max_queue_pair}
use hardware_drivers.Lldma.Queue.{put_side}
use hardware_drivers.Lldma.Queue.Exclusive.{IsOther}
use hardware_drivers.Lldma.Tidy.{same_or_IsOther}
use hardware_drivers.Files.{Private}

-- The driver with its open files, by number.
pub record World : Type 0 where
  pub dev : Dev
  pub files : ℕ → Private

abbrev pub with_file : World → ℕ → Dev → Private → World
with_file w i d f = record { dev = d; files = update w.files i f }

-- The file holds the queue `c` of `side`.
pub record Owns (f : Private) (side : Side) (c : ℕ) : Type 0 where
  pub dir : Dir
  pub held : f.is_get_queue ≡ true
  pub chid : f.chid ≡ some c
  pub kind : f.que_kind ≡ some dir
  pub side_of : put_side dir ≡ some side

-- Each file that holds a queue holds one of the arrays that is used, and no other file holds it.
pub record IsOwned (w : World) : Type 0 where
  pub whole :
      (i : ℕ) → (w.files i).is_get_queue ≡ true → (side : Side) × (c : ℕ) × Owns (w.files i) side c
  pub near : (i : ℕ) (s : Side) (c : ℕ) → Owns (w.files i) s c → c < max_queue_pair
  pub taken : (i : ℕ) (s : Side) (c : ℕ) → Owns (w.files i) s c → (queue_at s w.dev c).status ≡ used
  pub alone : (i j : ℕ) (s : Side) (c : ℕ) → Owns (w.files i) s c → Owns (w.files j) s c → i ≡ j

-- A file holds one queue at most.
pub Owns-unique : {f : Private} {s t : Side} {c k : ℕ} → Owns f s c → Owns f t k → (s ≡ t) × (c ≡ k)
Owns-unique {f} {s} {t} {c} {k} o p =
    let e : o.dir ≡ p.dir = ground (arith, o.kind, p.kind) in
    (ground (arith, ap put_side e, o.side_of, p.side_of), ground (arith, o.chid, p.chid))

-- Who holds a queue after the file `i` has become `f`.
Owns-cases :
    (w : World) (i : ℕ) (d : Dev) (f : Private) (j : ℕ) (s : Side) (c : ℕ)
    → Owns ((with_file w i d f).files j) s c
    → ((j ≢ i) × Owns (w.files j) s c) ⊎ ((j ≡ i) × Owns f s c)
Owns-cases w i d f j s c o = elim (Bool-cases (i == j)) [
  | inl e ↦ inr (ground (arith, e), rw e at o)
  | inr e ↦ inl (ground (arith, e), rw e at o)
]

-- The queues that other files hold stay used.
abbrev pub Keeps : World → ℕ → Dev → Type 0
Keeps w i d =
    (j : ℕ) (s : Side) (c : ℕ) → j ≢ i → Owns (w.files j) s c → (queue_at s d c).status ≡ used

-- A file that holds nothing afterwards.
pub quiet-IsOwned :
    (w : World) (i : ℕ) (d : Dev) (f : Private)
    → IsOwned w
    → f.is_get_queue ≡ false
    → Keeps w i d
    → IsOwned (with_file w i d f)
quiet-IsOwned w i d f h n k = record {
  whole = λ j g. elim (Bool-cases (i == j)) [
    | inl e ↦ absurd (ground (arith, e))
    | inr e ↦ rw e (h.whole j (rw e at g))
  ];
  near = λ j s c o. elim (Owns-cases w i d f j s c o) [
    | inl (ne, p) ↦ h.near j s c p
    | inr (e, p) ↦ absurd (ground (arith, p.held))
  ];
  taken = λ j s c o. elim (Owns-cases w i d f j s c o) [
    | inl (ne, p) ↦ k j s c ne p
    | inr (e, p) ↦ absurd (ground (arith, p.held))
  ];
  alone = λ j l s c o p. elim (Owns-cases w i d f j s c o) [
    | inr (e, q) ↦ absurd (ground (arith, q.held))
    | inl (ne, q) ↦ elim (Owns-cases w i d f l s c p) [
      | inr (e, r) ↦ absurd (ground (arith, r.held))
      | inl (nl, r) ↦ h.alone j l s c q r
    ]
  ];
}

-- A file that gets a queue that was free.
pub gain-IsOwned :
    (w : World) (i : ℕ) (d : Dev) (f : Private) (side : Side) (chid : ℕ)
    → IsOwned w
    → Owns f side chid
    → chid < max_queue_pair
    → (queue_at side w.dev chid).status ≡ free
    → (queue_at side d chid).status ≡ used
    → Keeps w i d
    → IsOwned (with_file w i d f)
gain-IsOwned w i d f side chid h g near fr us k = record {
  whole = λ j b. elim (Bool-cases (i == j)) [
    | inl e ↦ rw e (side, chid, g)
    | inr e ↦ rw e (h.whole j (rw e at b))
  ];
  near = λ j s c o. elim (Owns-cases w i d f j s c o) [
    | inl (ne, p) ↦ h.near j s c p
    | inr (e, p) ↦ omega (arith, near, (Owns-unique g p).1)
  ];
  taken = λ j s c o. elim (Owns-cases w i d f j s c o) [
    | inl (ne, p) ↦ k j s c ne p
    | inr (e, p) ↦ rw (← (Owns-unique g p).0, ← (Owns-unique g p).1) us
  ];
  alone = λ j l s c o p. elim (Owns-cases w i d f j s c o) [
    | inr (e, q) ↦ elim (Owns-cases w i d f l s c p) [
      | inr (e', r) ↦ e ∙ sym e'
      | inl (nl, r) ↦ absurd (free_not_taken l s c q r)
    ]
    | inl (ne, q) ↦ elim (Owns-cases w i d f l s c p) [
      | inr (e, r) ↦ absurd (free_not_taken j s c r q)
      | inl (nl, r) ↦ h.alone j l s c q r
    ]
  ];
}
  where
    free_not_taken : (l : ℕ) (s : Side) (c : ℕ) → Owns f s c → Owns (w.files l) s c → ⊥
    free_not_taken l s c q r = ground (
      arith,
      h.taken l s c r,
      ap (λ (x : Side). (queue_at x w.dev c).status) (Owns-unique g q).0,
      ap (λ (x : ℕ). (queue_at side w.dev x).status) (Owns-unique g q).1,
    )

-- No file changes.
pub same-IsOwned :
    (w : World) (i : ℕ) (d : Dev)
    → IsOwned w
    → ((s : Side) (c : ℕ) → queue_at s d c ≡ queue_at s w.dev c)
    → IsOwned (with_file w i d (w.files i))
same-IsOwned w i d h same =
    let same_file : (j : ℕ) → (with_file w i d (w.files i)).files j ≡ w.files j = λ j.
      elim (Bool-cases (i == j)) [
        | inl e ↦ rw e (ap w.files (ground (arith, e)))
        | inr e ↦ rw e refl
      ] in
    record {
      whole = λ j b. rw (same_file j) (h.whole j (rw (same_file j) at b));
      near = λ j s c o. h.near j s c (rw (same_file j) at o);
      taken = λ j s c o. ap (λ q. q.status) (same s c) ∙ h.taken j s c (rw (same_file j) at o);
      alone = λ j l s c o p. h.alone j l s c (rw (same_file j) at o) (rw (same_file l) at p);
    }

-- Nothing is given back; the queue that is given back was free, or the file's own.
pub Keeps-same :
    (w : World) (i : ℕ) (d : Dev)
    → IsOwned w
    → ((s : Side) (c : ℕ) → queue_at s d c ≡ queue_at s w.dev c)
    → Keeps w i d
Keeps-same w i d h same j s c ne o = ap (λ q. q.status) (same s c) ∙ h.taken j s c o

pub Keeps-free :
    (w : World) (i : ℕ) (d : Dev) (side : Side) (chid : ℕ)
    → IsOwned w
    → (queue_at side w.dev chid).status ≡ free
    → ((s : Side) (c : ℕ) → IsOther side chid s c → queue_at s d c ≡ queue_at s w.dev c)
    → Keeps w i d
Keeps-free w i d side chid h f others j s c ne o = elim (same_or_IsOther side s chid c) [
  | inl x ↦ ap (λ q. q.status) (others s c x) ∙ h.taken j s c o
  | inr (es, ec) ↦ absurd (
      ground (
        arith,
        f,
        h.taken j s c o,
        ap (λ (x : Side). (queue_at x w.dev c).status) es,
        ap (λ (x : ℕ). (queue_at side w.dev x).status) ec,
      ))
]

pub Keeps-owned :
    (w : World) (i : ℕ) (d : Dev) (side : Side) (chid : ℕ)
    → IsOwned w
    → Owns (w.files i) side chid
    → ((s : Side) (c : ℕ) → IsOther side chid s c → queue_at s d c ≡ queue_at s w.dev c)
    → Keeps w i d
Keeps-owned w i d side chid h g others j s c ne o = elim (same_or_IsOther side s chid c) [
  | inl x ↦ ap (λ q. q.status) (others s c x) ∙ h.taken j s c o
  | inr (es, ec) ↦ absurd (ne (h.alone j i s c o (rw (es, ec) g)))
]

-- A call that changes neither the device nor what the file holds, which is nothing.
pub unchanged-IsOwned :
    (w : World) (i : ℕ) (d : Dev) (f : Private)
    → IsOwned w
    → f.is_get_queue ≡ false
    → d ≡ w.dev
    → IsOwned (with_file w i d f)
unchanged-IsOwned w i d f h n e =
    quiet-IsOwned w i d f h n (Keeps-same w i d h (λ s c. ap (λ x. queue_at s x c) e))
