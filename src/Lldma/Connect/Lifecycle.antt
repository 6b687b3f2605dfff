-- ===== src/Lldma/Connect/Lifecycle.antt =====
-- A device-to-device connection from `xpcie_fpga_dev_connect` to `xpcie_fpga_dev_disconnect`.
use hardware_drivers.Prelude.{
  ℕ, ◌*◌, ◌%◌, ◌^◌, ◌<◌, ◌≡◌, ◌∙◌, ap, none, some, List, ◌⊎◌, inl, inr, ltb, ltb→lt, Bool-cases,
  Option-cases, length, arith,
}
use hardware_drivers.Bus.{Bus}
use hardware_drivers.Device.{
  Dev, Dir, free, used, Side, queue_at, set_queue, ok, err, Errno, einval, ebusy, max_queue_pair,
  connector_id_name_max, lldma_reg_write,
}
use hardware_drivers.Lldma.Regs.{ch_sel, ch_ctrl1, q_ctrl, q_addr_dn, q_addr_up}
use hardware_drivers.Lldma.Channel.{queue_set_addr, queue_set_ctrl, set_buf, stop_queue}
use hardware_drivers.Lldma.Channel.Frame.{
  off_bus, queue_set_addr_frame, queue_set_ctrl_frame, queue_at-off_bus, stop_queue_frame,
}
use hardware_drivers.Lldma.Queue.{with_status, with_connector, put_side}
use hardware_drivers.Lldma.Queue.Exclusive.{free_or_used, IsOther}
use hardware_drivers.Lldma.Queue.Release.{
  Releases, queue_at-set_self, queue_at-set_other, count-set_queue, put_queue_info-Releases,
  Releases-after,
}
use hardware_drivers.Lldma.Connect.{
  Connection, connect_side, set_buf_if_d2d_h, program_connection, connect_at, dev_connect,
  reset_channel, disconnect_stopped, dev_disconnect,
}

set_buf_if_d2d_h_frame :
    (d : Dev) (dir : Dir) (size addr : ℕ) (b : Bus)
    → off_bus (set_buf_if_d2d_h d dir size addr) b ≡ off_bus d b
unfolding set_buf_if_d2d_h set_buf
set_buf_if_d2d_h_frame d dir size addr b = ground arith

-- A device in which a channel is selected.
unfoldable pub selected : Dev → ℕ → Dir → Dev
unfolding lldma_reg_write
selected d chid dir = lldma_reg_write d (ch_sel dir) chid

-- The words that `reset_channel` writes before the buffer.
reset_words : Dev → Dir → Dev
unfolding lldma_reg_write
reset_words d dir =
    let d1 = lldma_reg_write d (q_ctrl dir) (0x10 * 2 ^ 8) in
    let d2 = lldma_reg_write d1 (ch_ctrl1 dir) 0 in
    lldma_reg_write (lldma_reg_write d2 (q_addr_up dir) 0) (q_addr_dn dir) 0

-- What is programmed before the buffer.
addressed : (ℕ → ℕ) → Dev → Connection → Dev
addressed v d c =
    queue_set_addr v (queue_set_ctrl d (c.self_chid % 2 ^ 16) c.dir (c.peer_chid % 2 ^ 8))
      (c.self_chid % 2 ^ 16) c.dir c.peer_addr

program_connection_frame :
    (v : ℕ → ℕ) (d : Dev) (c : Connection) (b : Bus)
    → off_bus (program_connection v d c) b ≡ off_bus d b
unfolding program_connection addressed
program_connection_frame v d c b =
    set_buf_if_d2d_h_frame (addressed v d c) c.dir c.buf_size c.buf_addr b
    ∙ queue_set_addr_frame v _ (c.self_chid % 2 ^ 16) c.dir c.peer_addr b
    ∙ queue_set_ctrl_frame d (c.self_chid % 2 ^ 16) c.dir (c.peer_chid % 2 ^ 8) b

-- What a connection that is made leaves: its channel used under its connector id, the command queue
-- as it was, all other queues as before.
pub record Connects (d d' : Dev) (side : Side) (chid : ℕ) (id : List ℕ) : Type 0 where
  pub made : queue_at side d' chid ≡ with_connector (with_status (queue_at side d chid) used) id
  pub others : (s : Side) (c : ℕ) → IsOther side chid s c → queue_at s d' c ≡ queue_at s d c
  pub channels : d'.available_dma_channel_num ≡ d.available_dma_channel_num

module _ (v : ℕ → ℕ) (d : Dev) (c : Connection) (side : Side) where
  -- The device in which the connection is programmed, and the one that comes of it.
  taken_dev : Dev
  taken_dev = set_queue side d c.self_chid (with_status (queue_at side d c.self_chid) used)

  programmed_dev : Dev
  programmed_dev = program_connection v taken_dev c

  programmed_dev_queue : (s : Side) (x : ℕ) → queue_at s programmed_dev x ≡ queue_at s taken_dev x
  unfolding programmed_dev
  programmed_dev_queue s x =
      queue_at-off_bus s _ _ x d.bus (program_connection_frame v taken_dev c d.bus)

  programmed_dev_count :
      programmed_dev.available_dma_channel_num ≡ taken_dev.available_dma_channel_num
  unfolding programmed_dev
  programmed_dev_count =
      ap (λ x. x.available_dma_channel_num) (program_connection_frame v taken_dev c d.bus)

  connected_dev : Dev
  connected_dev =
      set_queue side programmed_dev c.self_chid
        (with_connector (queue_at side programmed_dev c.self_chid) c.connector_id)

  connected_dev-Connects : Connects d connected_dev side c.self_chid c.connector_id
  unfolding connected_dev taken_dev
  connected_dev-Connects = record {
    made =
        queue_at-set_self side programmed_dev c.self_chid _
        ∙ ap (λ q. with_connector q c.connector_id)
            (programmed_dev_queue side c.self_chid ∙ queue_at-set_self side d c.self_chid _);
    others = λ s x o.
        queue_at-set_other side s programmed_dev c.self_chid x _ o
        ∙ programmed_dev_queue s x
        ∙ queue_at-set_other side s d c.self_chid x _ o;
    channels =
        count-set_queue side programmed_dev c.self_chid _
        ∙ programmed_dev_count
        ∙ count-set_queue side d c.self_chid _;
  }

  -- Connecting a free channel within the array succeeds, for a connector id that fits: the channel
  -- is used, under that id, and no other queue changes.
  pub dev_connect-Connects :
      connect_side c.dir ≡ some side
      → c.self_chid < max_queue_pair
      → length c.connector_id < connector_id_name_max
      → (queue_at side d c.self_chid).status ≡ free
      → (d' : Dev) × (dev_connect v d c ≡ some (ok, d'))
        × Connects d d' side c.self_chid c.connector_id
  unfolding dev_connect connect_at connected_dev programmed_dev taken_dev
  dev_connect-Connects e n l f = (connected_dev, ground arith, connected_dev-Connects)

  -- A channel that is used cannot be connected: -EBUSY, and nothing changes.
  pub dev_connect_busy :
      connect_side c.dir ≡ some side
      → c.self_chid < max_queue_pair
      → length c.connector_id < connector_id_name_max
      → (queue_at side d c.self_chid).status ≡ used
      → dev_connect v d c ≡ some (err ebusy, d)
  unfolding dev_connect connect_at
  dev_connect_busy e n l u = ground arith

-- What decides a call: an unknown direction or a used queue with a long connector id, an access
-- outside an array, or neither.
pub dev_connect_guards :
    (v : ℕ → ℕ) (d : Dev) (c : Connection)
    → ((n : Errno) × (dev_connect v d c ≡ some (err n, d)))
      ⊎ ((dev_connect v d c ≡ none)
          ⊎ ((side : Side) × (connect_side c.dir ≡ some side)
              × (c.self_chid < max_queue_pair)
              × (length c.connector_id < connector_id_name_max)))
unfolding dev_connect connect_at
dev_connect_guards v d c = elim (Option-cases (connect_side c.dir)) [
  | inl e ↦ inl (einval, ground arith)
  | inr (side, e) ↦ elim (Bool-cases (ltb c.self_chid max_queue_pair)) [
    | inr far ↦ inr (inl (ground arith))
    | inl near ↦ elim (Bool-cases (ltb (length c.connector_id) connector_id_name_max)) [
      | inr long ↦ elim (free_or_used (queue_at side d c.self_chid).status) [
        | inl f ↦ inr (inl (ground arith))
        | inr u ↦ inl (ebusy, ground arith)
      ]
      | inl short ↦ inr (inr (side, e, ltb→lt _ _ near, ltb→lt _ _ short))
    ]
  ]
]

pub reset_channel_frame :
    (d : Dev) (dir : Dir) (b : Bus) → off_bus (reset_channel d dir) b ≡ off_bus d b
unfolding reset_channel reset_words
reset_channel_frame d dir b = set_buf_if_d2d_h_frame (reset_words d dir) dir 0 0 b

disconnect_frame :
    (d : Dev) (chid : ℕ) (dir : Dir)
    → off_bus (reset_channel (stop_queue (selected d chid dir) chid dir).1 dir) d.bus ≡ d
unfolding selected
disconnect_frame d chid dir =
    reset_channel_frame (stop_queue (selected d chid dir) chid dir).1 dir d.bus
    ∙ stop_queue_frame (selected d chid dir) chid dir d.bus

u16_lem : (chid : ℕ) → chid < max_queue_pair → chid % 2 ^ 16 ≡ chid
u16_lem chid h = omega arith

-- Disconnecting a channel within the array that drains succeeds: the channel is free, has no
-- connector id, and no other queue changes. If it does not drain, the call fails with the error of
-- the stop and no queue changes.
pub dev_disconnect-Releases :
    (d : Dev) (chid : ℕ) (dir : Dir) (side : Side)
    → put_side dir ≡ some side
    → chid < max_queue_pair
    → let r = stop_queue (selected d chid dir) chid dir in
      (r.0 ≡ ok
        → (d' : Dev) × (dev_disconnect d chid dir ≡ some (ok, d')) × Releases d d' side chid)
      × ((e : Errno)
          → r.0 ≡ err e
          → (dev_disconnect d chid dir ≡ some (err e, r.1))
            × ((s : Side) (c : ℕ) → queue_at s r.1 c ≡ queue_at s d c))
unfolding dev_disconnect disconnect_stopped selected
dev_disconnect-Releases d chid dir side e n =
    let r = stop_queue (selected d chid dir) chid dir in
    let (d', p, rel) = put_queue_info-Releases (reset_channel r.1 dir) chid dir side e n in
    (
      λ drained. (
        d',
        ground (arith, p, drained, u16_lem chid n),
        Releases-after d (reset_channel r.1 dir) d' side chid
            (λ s c. queue_at-off_bus s _ d c d.bus (disconnect_frame d chid dir))
            (ap (λ x. x.available_dma_channel_num) (disconnect_frame d chid dir)) rel,
      ),
      λ errno timeout. (
        ground (arith, timeout, u16_lem chid n),
        λ s c.
            queue_at-off_bus s _ d c d.bus (stop_queue_frame (selected d chid dir) chid dir d.bus),
      ),
    )
