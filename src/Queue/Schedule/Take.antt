-- ===== src/Queue/Schedule/Take.antt =====
-- A slot is taken for a new packet.
use command_station_ex.Base.{
  ℕ, suc, ◌+◌, ◌≡◌, refl, Option, none, some, List, [], ◌∷◌, arith, ltb, if◌then◌else◌, take,
  overlay,
}
use command_station_ex.Chain.{Links, link, Chain-link, count, count_self}
use command_station_ex.Queue.{
  PendingType, Slot, Queue, Queues, set_slot, low_half, max_packet_size, get_slot,
}
use command_station_ex.Queue.Primitives.{Holds}
use command_station_ex.Queue.Schedule.Rep.{Rep, small}

-- What the slot holds, over the array `old` of its last use.
unfoldable pub made : PendingType → List ℕ → ℕ → ℕ → ℕ → List ℕ → Slot
made type packet n repeats loco old = record {
  type = type;
  packet_length = n;
  packet_repeat = repeats;
  packet = overlay (take (if ltb max_packet_size n then max_packet_size else n) packet) old;
  shared = low_half loco 0;
}

Holds-link :
    (next : Links) (q : Queue) (p : ℕ) (xs : List ℕ)
    → count p xs ≡ 0
    → Holds next q xs
    → Holds (link next p none) q xs
Holds-link next q p xs out h = record {
  chain = Chain-link next p none q.head xs out h.chain;
  ends = h.ends;
}

-- The store once slot `p` is taken, with `o` and `n` the rest to use again and the slots made.
taken : Queues → ℕ → Option ℕ → ℕ → Slot → Queues
taken st p o n s = record st {
  next = link st.next p none;
  slot = set_slot st.slot p s;
  recycle_list = o;
  created = n;
}

module _ (st : Queues) (type : PendingType) (packet : List ℕ) (n repeats loco : ℕ) where
  abbrev new_at : ℕ → Slot
  new_at p = made type packet n repeats loco (st.slot p).packet

  get_slot_again :
      (p : ℕ)
      → st.recycle_list ≡ some p
      → get_slot st type packet n repeats loco ≡ (taken st p (st.next p) st.created (new_at p), p)
  unfolding get_slot made taken
  get_slot_again p e = rw (e, get_slot)

  get_slot_new :
      st.recycle_list ≡ none
      → get_slot st type packet n repeats loco
        ≡ (taken st st.created none (suc st.created) (new_at st.created), st.created)
  unfolding get_slot made taken
  get_slot_new e = rw (e, get_slot)

-- What a call gives: a slot in hand, with the new contents, and all else as it was.
pub record Took (st : Queues) (hs ls : List ℕ) (s : ℕ → Slot) (res : Queues × ℕ) : Type 0 where
  pub rest : List ℕ
  pub rep : Rep res.0 hs ls rest (res.1 ∷ [])
  pub slots : (a : ℕ) → res.0.slot a ≡ set_slot st.slot res.1 (s res.1) a
  pub last_same : res.0.last_sent ≡ st.last_sent
  pub sent_same : res.0.sent ≡ st.sent

module _ (st : Queues) (hs ls : List ℕ) (type : PendingType) (packet : List ℕ)
    (n repeats loco : ℕ) where
  pub get_slot-Took :
      (rs : List ℕ)
      → Rep st hs ls rs []
      → Took st hs ls
          (new_at st type packet n repeats loco)
          (get_slot st type packet n repeats loco)
  unfolding taken
  get_slot-Took [] r =
      let new = new_at st type packet n repeats loco st.created in
      let out : count st.created hs + count st.created ls ≡ 0 = ground (arith, r.once st.created) in
      rw (get_slot_new st type packet n repeats loco r.recycled) (record {
        rest = [];
        rep = record {
          high = Holds-link st.next st.high st.created hs (omega (arith, out)) r.high;
          low = Holds-link st.next st.low st.created ls (omega (arith, out)) r.low;
          recycled = refl;
          once = λ a. ground (arith, r.once a);
          total = omega (arith, r.total);
        };
        slots = λ a. refl;
        last_same = refl;
        sent_same = refl;
      })
  get_slot-Took (p ∷ rs) r =
      let one = small st hs ls (p ∷ rs) [] r p in
      let own = count_self p rs in
      rw (get_slot_again st type packet n repeats loco p r.recycled.0) (record {
        rest = rs;
        rep = record {
          high = Holds-link st.next st.high p hs (omega (arith, one, own)) r.high;
          low = Holds-link st.next st.low p ls (omega (arith, one, own)) r.low;
          recycled = Chain-link st.next p none (st.next p) rs (ground (arith, one)) r.recycled.1;
          once = λ a. omega (arith, r.once a);
          total = omega (arith, r.total);
        };
        slots = λ a. refl;
        last_same = refl;
        sent_same = refl;
      })
