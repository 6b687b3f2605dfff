-- ===== src/Lanes/Found.antt =====
-- The lanes that the search finds.
use hardware_drivers.Prelude.{
  ℕ, zero, suc, ◌+◌, ◌*◌, ◌≤◌, ◌<◌, ◌≡◌, ◌≢◌, ◌⊎◌, refl, ap, dec_lt, inl, inr, Bool-cases, List,
  arith, ◌==◌,
}
use hardware_drivers.Bus.{Access, Bus, u32, reg_read32}
use hardware_drivers.Device.{Dev, ModuleInfo, Ret, ok, err, enodev}
use hardware_drivers.Lanes.{
  Place, chain_place, direct_place, count_lanes, get_chain_module_info, get_direct_module_info,
  found_ret,
}

-- The identifier registers of the four lanes show fixed words.
abbrev pub IsFixed : Place → Bus → (ℕ → ℕ) → Type 0
IsFixed p b id =
    (log : List Access) (i : ℕ)
    → i < 4
    → b.answer log (u32 (p.offset + i * p.size + p.id_offset)) ≡ id i

-- `num` lanes were found from lane `from` on, of `fuel` that were looked at.
pub record IsFound (p : Place) (id : ℕ → ℕ) (fuel from num : ℕ) : Type 0 where
  pub least : from ≤ num
  pub most : num ≤ from + fuel
  pub present : (i : ℕ) → from ≤ i → i < num → u32 (id i) ≡ p.id_value
  pub absent : num < from + fuel → u32 (id num) ≢ p.id_value

-- The answer and the module of a search for up to four lanes: it is there exactly if lane 0 shows
-- the identifier, and otherwise the answer is -ENODEV and no lane is counted.
pub record Finds (p : Place) (id : ℕ → ℕ) (r : Ret) (m : ModuleInfo) : Type 0 where
  pub lanes : IsFound p id 4 0 m.num
  pub place : (m.base ≡ p.offset) × (m.len ≡ p.size)
  pub answer :
      ((u32 (id 0) ≡ p.id_value) × (0 < m.num) × (r ≡ ok))
      ⊎ ((u32 (id 0) ≢ p.id_value) × (m.num ≡ 0) × (r ≡ err enodev))

-- A read of a lane's identifier.
id_read :
    (p : Place) (b : Bus) (i : ℕ) (id : ℕ → ℕ)
    → IsFixed p b id
    → i < 4
    → (reg_read32 b (p.offset + i * p.size + p.id_offset)).0 ≡ u32 (id i)
unfolding reg_read32
id_read p b i id h q = ap u32 (h b.log i q)

IsFixed-after :
    (p : Place) (b : Bus) (i : ℕ) (id : ℕ → ℕ)
    → IsFixed p b id
    → IsFixed p (reg_read32 b (p.offset + i * p.size + p.id_offset)).1 id
unfolding reg_read32
IsFixed-after p b i id h = h

count_lanes-IsFound :
    (p : Place) (fuel : ℕ) (d : Dev) (from : ℕ) (id : ℕ → ℕ)
    → IsFixed p d.bus id
    → from + fuel ≤ 4
    → IsFound p id fuel from (count_lanes p fuel d from).0
unfolding count_lanes dec_lt
count_lanes-IsFound p zero d from id h q = record {
  least = omega arith;
  most = omega arith;
  present = λ i a b. absurd (omega arith);
  absent = λ a. absurd (omega arith);
}
count_lanes-IsFound p (suc fuel) d from id h q =
    let b = (reg_read32 d.bus (p.offset + from * p.size + p.id_offset)).1 in
    let rest =
      count_lanes-IsFound p fuel (record d { bus = b }) (from + 1) id
        (λ log i. (IsFixed-after p d.bus from id h log i)) (omega arith) in
    elim (Bool-cases (u32 (id from) == p.id_value)) [
      | inl e ↦
          rw (id_read p d.bus from id h (omega arith), e)
            (record {
              least = omega (arith, rest.least);
              most = omega (arith, rest.most);
              present = λ i a c. elim (dec_lt from i) [
                | yes s ↦ rest.present i (omega (arith, s)) c
                | no s ↦ ground (arith, s)
              ];
              absent = λ a. rest.absent (omega (arith, a));
            })
      | inr e ↦
          rw (id_read p d.bus from id h (omega arith), e)
            (record {
              least = omega arith;
              most = omega arith;
              present = λ i a c. absurd (omega (arith, a, c));
              absent = λ a. ground arith;
            })
    ]

-- Lane 0 shows the identifier exactly if a lane is counted.
answer_of :
    (p : Place) (id : ℕ → ℕ) (num : ℕ)
    → IsFound p id 4 0 num
    → ((u32 (id 0) ≡ p.id_value) × (0 < num) × (found_ret num ≡ ok))
      ⊎ ((u32 (id 0) ≢ p.id_value) × (num ≡ 0) × (found_ret num ≡ err enodev))
answer_of p id zero f = inr (f.absent (omega arith), refl, refl)
answer_of p id (suc n) f = inl (f.present 0 (omega arith) (omega arith), omega arith, ground arith)

-- Where the identifier registers of the four lanes are fixed, the search for the chain module, and
-- that for the direct transfer module, counts the lanes from the first one on, four at most, up to
-- the first that does not show the module's identifier, and sets the module's place. It returns 0
-- if lane 0 shows the identifier, and otherwise counts no lane and returns -ENODEV.
pub module_info-IsFound :
    (d : Dev) (id id' : ℕ → ℕ)
    → IsFixed chain_place d.bus id
    → IsFixed direct_place d.bus id'
    → Finds chain_place id (get_chain_module_info d).0 (get_chain_module_info d).1.chain
      × Finds direct_place id' (get_direct_module_info d).0 (get_direct_module_info d).1.direct
unfolding get_chain_module_info get_direct_module_info
module_info-IsFound d id id' h h' =
    let f = count_lanes-IsFound chain_place 4 d 0 id h (omega arith) in
    let f' = count_lanes-IsFound direct_place 4 d 0 id' h' (omega arith) in
    (
      record { lanes = f; place = (refl, refl); answer = answer_of chain_place id _ f },
      record { lanes = f'; place = (refl, refl); answer = answer_of direct_place id' _ f' },
    )
