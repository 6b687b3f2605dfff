-- ===== src/Lldma/Tidy.antt =====
-- The invariant of the driver's queues, and that each call that takes or gives back one keeps it:
-- a free queue has no connector id, and no more channels are counted than the arrays have entries.
pub mod Runs
use hardware_drivers.Prelude.{
  ℕ, ◌%◌, ◌^◌, ◌<◌, ◌≤◌, ◌≡◌, refl, sym, subst, ◌∙◌, ap, Option, none, some, List, [], ◌∷◌, ◌⊎◌,
  inl, inr, length, Option-cases, ℕ_discrete, arith,
}
use hardware_drivers.Device.{
  Dev, Dir, free, Side, enq, deq, queue_at, Ret, ok, err, einval, max_queue_pair,
  connector_id_name_max,
}
use hardware_drivers.Lldma.Channel.{stop_queue}
use hardware_drivers.Lldma.Queue.{
  IoctlQueue, get_side, get_queue, get_queue_at, put_side, put_queue_info, put_queue, put_stopped,
  busy_if_failed,
}
use hardware_drivers.Lldma.Queue.Exclusive.{IsOther, Takes, get_queue_lem}
use hardware_drivers.Lldma.Queue.Release.{Releases, put_queue_info-Releases, put_queue_info_refused}
use hardware_drivers.Lldma.Connect.{
  Connection, connect_side, connect_at, dev_connect, dev_disconnect, disconnect_stopped,
  reset_channel,
}
use hardware_drivers.Lldma.Connect.Lifecycle.{Connects}
use hardware_drivers.Lldma.Outcome.{
  SameQueues, Gives, Gives-after, get_queue_cases, put_queue_info_cases, put_queue_cases,
  dev_connect_cases, dev_disconnect_cases, stop_queue-SameQueues,
}

pub record IsTidy (d : Dev) : Type 0 where
  pub unnamed :
      (s : Side) (c : ℕ) → (queue_at s d c).status ≡ free → (queue_at s d c).connector_id ≡ []
  pub channels : d.available_dma_channel_num ≤ max_queue_pair

pub same_or_IsOther :
    (side s : Side) (chid c : ℕ) → IsOther side chid s c ⊎ ((s ≡ side) × (c ≡ chid))
same_or_IsOther enq enq chid c = elim (ℕ_discrete c chid) [
  | yes e ↦ inr (refl, e)
  | no n ↦ inl (inr n)
]
same_or_IsOther deq deq chid c = elim (ℕ_discrete c chid) [
  | yes e ↦ inr (refl, e)
  | no n ↦ inl (inr n)
]
same_or_IsOther enq deq chid c = inl (inl (λ e. cc))
same_or_IsOther deq enq chid c = inl (inl (λ e. cc))

-- A change of one queue keeps the invariant if that queue keeps it.
module _ (d d' : Dev) (side : Side) (chid : ℕ)
    (others : (s : Side) (c : ℕ) → IsOther side chid s c → queue_at s d' c ≡ queue_at s d c)
    (count : d'.available_dma_channel_num ≡ d.available_dma_channel_num)
    (own : (queue_at side d' chid).status ≡ free → (queue_at side d' chid).connector_id ≡ []) where
  unnamed_of_change :
      IsTidy d
      → (s : Side) (c : ℕ) → (queue_at s d' c).status ≡ free
      → (queue_at s d' c).connector_id ≡ []
  unnamed_of_change t s c f = elim (same_or_IsOther side s chid c) [
    | inl o ↦
        ap (λ q. q.connector_id) (others s c o)
        ∙ t.unnamed s c (sym (ap (λ q. q.status) (others s c o)) ∙ f)
    | inr (es, ec) ↦ ground (arith, own)
  ]

  IsTidy-of_change : IsTidy d → IsTidy d'
  IsTidy-of_change t = record { unnamed = unnamed_of_change t; channels = rw count t.channels }

pub Takes-IsTidy :
    {d d' : Dev} {side : Side} {chid : ℕ} {id : List ℕ}
    → Takes d d' side chid id
    → IsTidy d
    → IsTidy d'
Takes-IsTidy {d} {d'} {side} {chid} t =
    IsTidy-of_change d d' side chid t.others t.channels (λ f. ground (arith, t.taken.status))

Releases-IsTidy :
    {d d' : Dev} {side : Side} {chid : ℕ} → Releases d d' side chid → IsTidy d → IsTidy d'
Releases-IsTidy {d} {d'} {side} {chid} r =
    IsTidy-of_change d d' side chid r.others r.channels (λ f. r.given.connector)

pub Connects-IsTidy :
    {d d' : Dev} {side : Side} {chid : ℕ} {id : List ℕ}
    → Connects d d' side chid id
    → IsTidy d
    → IsTidy d'
Connects-IsTidy {d} {d'} {side} {chid} t =
    IsTidy-of_change d d' side chid t.others t.channels (λ f. ground (arith, t.made))

SameQueues-IsTidy : {d d' : Dev} → SameQueues d d' → IsTidy d → IsTidy d'
SameQueues-IsTidy {d} {d'} same t = record {
  unnamed = λ s c f. ground (arith, same.queues s c, t.unnamed s c);
  channels = rw same.channels t.channels;
}

pub Gives-IsTidy : {d d' : Dev} {chid : ℕ} → Gives d d' chid → IsTidy d → IsTidy d'
Gives-IsTidy (inl same) t = SameQueues-IsTidy same t
Gives-IsTidy (inr (side, rel)) t = Releases-IsTidy rel t
