-- ===== src/Queue/Schedule/Rep.antt =====
-- The store as three lists of slots, and what the small operations do to them.
use command_station_ex.Base.{
  ℕ, ◌+◌, ◌≤◌, ◌<◌, ◌≡◌, Option, List, [], ◌∷◌, ◌++◌, arith, length, length-append, ltb, ◌==◌,
  if◌then◌else◌,
}
use command_station_ex.Chain.{
  Links, Chain, Chain-frame, count, count-append, without, count-without, length-without,
  count_self,
}
use command_station_ex.Queue.{
  Queue, Queues, add_low, add_high, jump_high, recycle_slot, remove_high, remove_low,
}
use command_station_ex.Queue.Primitives.{
  Holds, SameOutside, add_queue-Holds, jump_queue-Holds, recycle-Chain, remove-Holds,
}

-- The high queue holds `hs`, the low queue `ls`, and `rs` wait to be used again: each slot that was
-- ever made stands in one of them, once, but for those in `out`, which an operation has in hand.
pub record Rep (st : Queues) (hs ls rs out : List ℕ) : Type 0 where
  pub high : Holds st.next st.high hs
  pub low : Holds st.next st.low ls
  pub recycled : Chain st.next st.recycle_list rs
  pub once :
      (a : ℕ)
      → count a hs + count a ls + count a rs + count a out ≡ (if ltb a st.created then 1 else 0)
  pub total : length hs + length ls + length rs + length out ≡ st.created

Chain-apart :
    (next next' : Links) (o : Option ℕ) (ys zs : List ℕ)
    → SameOutside ys next next'
    → ((a : ℕ) → count a zs + count a ys ≤ 1)
    → Chain next o zs
    → Chain next' o zs
Chain-apart next next' o ys zs same apart c =
    Chain-frame next next' o zs (λ a inside. same a (omega (arith, apart a, inside))) c

Holds-apart :
    (next next' : Links) (q : Queue) (ys zs : List ℕ)
    → SameOutside ys next next'
    → ((a : ℕ) → count a zs + count a ys ≤ 1)
    → Holds next q zs
    → Holds next' q zs
Holds-apart next next' q ys zs same apart h = record {
  chain = Chain-apart next next' q.head ys zs same apart h.chain;
  ends = h.ends;
}

module _ (st : Queues) (hs ls rs hand : List ℕ) (r : Rep st hs ls rs hand) where
  pub small : (a : ℕ) → count a hs + count a ls + count a rs + count a hand ≤ 1
  small a = ground (arith, r.once a)

count_one : (a p : ℕ) → count a (p ∷ []) ≡ (if a == p then 1 else 0)
count_one a p = omega arith

module _ (st : Queues) (hs ls rs : List ℕ) (p : ℕ) (r : Rep st hs ls rs (p ∷ [])) where
  one : (a : ℕ) → count a hs + count a ls + count a rs + count a (p ∷ []) ≤ 1
  one = small st hs ls rs (p ∷ []) r

  absent : (count p hs ≡ 0) × (count p ls ≡ 0) × (count p rs ≡ 0)
  absent =
      let u = one p in
      let v = count_self p [] in (omega (arith, u, v), omega (arith, u, v), omega (arith, u, v))

  pub add_low-Rep : Rep (add_low st p) hs (ls ++ p ∷ []) rs []
  unfolding add_low
  add_low-Rep =
      let (h, same) =
        add_queue-Holds st.next st.low p ls r.low (λ a. omega (arith, one a)) absent.1 in
      let bound : (a : ℕ) → count a hs + count a rs + count a (ls ++ p ∷ []) ≤ 1 =
        λ a. omega (arith, one a, count-append a ls (p ∷ [])) in
      record {
        high =
            Holds-apart st.next _ st.high (ls ++ p ∷ []) hs same (λ a. omega (arith, bound a))
              r.high;
        low = h;
        recycled =
            Chain-apart st.next _ st.recycle_list (ls ++ p ∷ []) rs same
              (λ a. omega (arith, bound a)) r.recycled;
        once = λ a. omega (arith, r.once a, count-append a ls (p ∷ []));
        total = omega (arith, r.total, length-append ls (p ∷ []));
      }

  pub add_high-Rep : Rep (add_high st p) (hs ++ p ∷ []) ls rs []
  unfolding add_high
  add_high-Rep =
      let (h, same) =
        add_queue-Holds st.next st.high p hs r.high (λ a. omega (arith, one a)) absent.0 in
      let bound : (a : ℕ) → count a ls + count a rs + count a (hs ++ p ∷ []) ≤ 1 =
        λ a. omega (arith, one a, count-append a hs (p ∷ [])) in
      record {
        high = h;
        low =
            Holds-apart st.next _ st.low (hs ++ p ∷ []) ls same (λ a. omega (arith, bound a)) r.low;
        recycled =
            Chain-apart st.next _ st.recycle_list (hs ++ p ∷ []) rs same
              (λ a. omega (arith, bound a)) r.recycled;
        once = λ a. omega (arith, r.once a, count-append a hs (p ∷ []));
        total = omega (arith, r.total, length-append hs (p ∷ []));
      }

  pub jump_high-Rep : Rep (jump_high st p) (p ∷ hs) ls rs []
  unfolding jump_high
  jump_high-Rep =
      let (h, same) = jump_queue-Holds st.next st.high p hs r.high absent.0 in
      record {
        high = h;
        low = Holds-apart st.next _ st.low (p ∷ hs) ls same (λ a. omega (arith, one a)) r.low;
        recycled =
            Chain-apart st.next _ st.recycle_list (p ∷ hs) rs same (λ a. omega (arith, one a))
              r.recycled;
        once = λ a. omega (arith, r.once a);
        total = omega (arith, r.total);
      }

  pub recycle_slot-Rep : Rep (recycle_slot st p) hs ls (p ∷ rs) []
  unfolding recycle_slot
  recycle_slot-Rep =
      let (c, same) = recycle-Chain st.next st.high p st.recycle_list rs r.recycled absent.2 in
      record {
        high = Holds-apart st.next _ st.high (p ∷ rs) hs same (λ a. omega (arith, one a)) r.high;
        low = Holds-apart st.next _ st.low (p ∷ rs) ls same (λ a. omega (arith, one a)) r.low;
        recycled = c;
        once = λ a. omega (arith, r.once a);
        total = omega (arith, r.total);
      }

module _ (st : Queues) (hs ls rs : List ℕ) (p : ℕ) (r : Rep st hs ls rs []) where
  pub remove_high-Rep : 0 < count p hs → Rep (remove_high st p) (without p hs) ls rs (p ∷ [])
  unfolding remove_high
  remove_high-Rep i =
      let one = small st hs ls rs [] r in
      let (h, same) =
        remove-Holds st.created st.next st.high p hs r.high (λ a. omega (arith, one a)) i
          (omega (arith, r.total)) in
      record {
        high = h;
        low = Holds-apart st.next _ st.low hs ls same (λ a. omega (arith, one a)) r.low;
        recycled =
            Chain-apart st.next _ st.recycle_list hs rs same (λ a. omega (arith, one a)) r.recycled;
        once = λ a. omega (arith, r.once a, count-without a p hs i);
        total = omega (arith, r.total, length-without p hs i);
      }

  pub remove_low-Rep : 0 < count p ls → Rep (remove_low st p) hs (without p ls) rs (p ∷ [])
  unfolding remove_low
  remove_low-Rep i =
      let one = small st hs ls rs [] r in
      let (h, same) =
        remove-Holds st.created st.next st.low p ls r.low (λ a. omega (arith, one a)) i
          (omega (arith, r.total)) in
      record {
        high = Holds-apart st.next _ st.high ls hs same (λ a. omega (arith, one a)) r.high;
        low = h;
        recycled =
            Chain-apart st.next _ st.recycle_list ls rs same (λ a. omega (arith, one a)) r.recycled;
        once = λ a. omega (arith, r.once a, count-without a p ls i);
        total = omega (arith, r.total, length-without p ls i);
      }
