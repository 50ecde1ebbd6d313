-- ===== src/EventAsync/Publish.antt =====
-- am_event_async_publish: who is called, and in which order.
use amast.Common.{
  ℕ, zero, suc, ◌+◌, ◌-◌, ◌*◌, ◌/◌, ◌%◌, ◌≤◌, ◌<◌, ◌≡◌, ◌≢◌, refl, ap, ap₂, sym, ◌∙◌, arith, Bool,
  true, false, not, ◌&&◌, ltb, leb, ◌==◌, if◌then◌else◌, Checked, ok, check, ◌>>◌, ◌>>=◌, List, [],
  ◌∷◌, ◌++◌, length, has_bit, clear_bit, clear_bit-lt, bits_below, bits_below-length,
  bits_below-zero, Bool-cases, >>=-congr, >>=-assoc, ==_iff, inl, inr,
}
use amast.Slist.{non_null}
use amast.Event.{World, evt_user, is_static, inc_ref_cnt, free}
use amast.EventQueue.{Policy}
use amast.Bit.{u8_msb}
use amast.Bit.Msb.{bits_below-msb, u8_msb-lt}
use amast.EventLists.{AreBytes, subscribers, shifted}
use amast.EventAsync.{
  AsyncState, handlers_num_max, list_size, is_excluded, deliver, deliver_byte, deliver_bytes,
  publish,
}

-- Those of the handlers that a publication reaches: registered and not excluded.
unfoldable pub receivers : AsyncState → Policy → List ℕ → List ℕ
receivers me policy [] = []
receivers me policy (ind ∷ inds) =
    let others = receivers me policy inds in
    if not (is_excluded policy ind) && non_null (me.handlers ind).fn then ind ∷ others else others

-- The handlers of the bytes up to byte `i` are those of byte `i` and those of the bytes before.
subscribers-byte :
    (sub : ℕ → ℕ) (i k : ℕ)
    → k ≤ 8
    → subscribers (k + 8 * i) sub ≡ shifted i (bits_below k (sub i)) ++ subscribers (8 * i) sub
unfolding subscribers bits_below
subscribers-byte sub i zero h = ap (λ n. subscribers n sub) (omega arith)
subscribers-byte sub i (suc k) h =
    let at : suc k + 8 * i ≡ suc (k + 8 * i) = omega arith in
    let byte : (k + 8 * i) / 8 ≡ i = omega arith in
    let bit : (k + 8 * i) % 8 ≡ k = omega arith in
    let number : k + 8 * i ≡ 8 * i + k = omega arith in
    let others = subscribers-byte sub i k (omega arith) in
    rw (at, byte, bit) (go (has_bit (sub i) k) number others)
  where
    go :
        (here : Bool)
        → k + 8 * i ≡ 8 * i + k
        → subscribers (k + 8 * i) sub ≡ shifted i (bits_below k (sub i)) ++ subscribers (8 * i) sub
        → (if here then (k + 8 * i) ∷ subscribers (k + 8 * i) sub else subscribers (k + 8 * i) sub)
          ≡ shifted i (if here then k ∷ bits_below k (sub i) else bits_below k (sub i))
            ++ subscribers (8 * i) sub
    go true number others = ap₂ ◌∷◌ number others
    go false number others = others

module _ {S : Type 0}
    (call : (fn ctx event : ℕ) → Policy → World → S → Checked (Bool × World × S)) where
  -- Each of the handlers is called in turn, and all of them have to accept.
  unfoldable pub call_each :
      AsyncState → List ℕ → (event : ℕ) → Policy → Bool × World × S → Checked (Bool × World × S)
  call_each me [] event policy r = ok r
  call_each me (ind ∷ inds) event policy (all, w, s) = do
    let handler = me.handlers ind
    (is_ok, w', s') ← call handler.fn handler.ctx event policy w s
    call_each me inds event policy (is_ok && all, w', s')

  deliver_each :
      AsyncState → List ℕ → (event : ℕ) → Policy → Bool × World × S → Checked (Bool × World × S)
  deliver_each me [] event policy r = ok r
  deliver_each me (ind ∷ inds) event policy r =
      deliver call me ind event policy r >>= deliver_each me inds event policy

  deliver_each-append :
      (me : AsyncState) (xs ys : List ℕ) (event : ℕ) (policy : Policy) (r : Bool × World × S)
      → deliver_each me (xs ++ ys) event policy r
        ≡ (deliver_each me xs event policy r >>= deliver_each me ys event policy)
  unfolding deliver_each
  deliver_each-append me [] ys event policy r = refl
  deliver_each-append me (x ∷ xs) ys event policy r =
      >>=-assoc (deliver call me x event policy r) (deliver_each me xs event policy)
        (deliver_each me ys event policy) (deliver_each me (xs ++ ys) event policy)
        (deliver_each-append me xs ys event policy)

  deliver_byte-each :
      (fuel : ℕ) (me : AsyncState) (i list event : ℕ) (policy : Policy) (r : Bool × World × S)
      → list < 256
      → length (bits_below 8 list) < fuel
      → deliver_byte call fuel me i list event policy r
        ≡ deliver_each me (shifted i (bits_below 8 list)) event policy r
  unfolding deliver_byte deliver_each
  deliver_byte-each zero me i list event policy r lt enough = absurd (omega arith)
  deliver_byte-each (suc fuel) me i list event policy r lt enough = elim (Bool-cases (list == 0)) [
    | inl e ↦
        let zero_list : list ≡ 0 = (==_iff list 0).0 e in rw (e, zero_list, bits_below-zero) refl
    | inr e ↦
        let ne : list ≢ 0 = ground arith in
        let msb = u8_msb list in
        let split = bits_below-msb list lt ne in
        let small = clear_bit-lt list msb lt (u8_msb-lt list lt ne) in
        let fewer : length (bits_below 8 (clear_bit list msb)) < fuel =
          omega (arith, ap length split) in
        rw (e, split)
          (>>=-congr (deliver call me (8 * i + msb) event policy r)
            (deliver_byte call fuel me i (clear_bit list msb) event policy)
            (deliver_each me (shifted i (bits_below 8 (clear_bit list msb))) event policy)
            λ r'. deliver_byte-each fuel me i (clear_bit list msb) event policy r' small fewer)
  ]

  deliver_bytes-each :
      (n : ℕ) (me : AsyncState) (sub : ℕ → ℕ) (event : ℕ) (policy : Policy) (r : Bool × World × S)
      → ((i : ℕ) → sub i < 256)
      → deliver_bytes call n me sub event policy r
        ≡ deliver_each me (subscribers (8 * n) sub) event policy r
  unfolding deliver_bytes subscribers deliver_each
  deliver_bytes-each zero me sub event policy r v = refl
  deliver_bytes-each (suc n) me sub event policy r v =
      let top : 8 * suc n ≡ 8 + 8 * n = omega arith in
      let enough : length (bits_below 8 (sub n)) < 9 = omega (arith, bits_below-length 8 (sub n)) in
      let byte = deliver_byte-each 9 me n (sub n) event policy r (v n) enough in
      let low = subscribers (8 * n) sub in
      let high = shifted n (bits_below 8 (sub n)) in
      rw (top, subscribers-byte sub n 8 (omega arith), byte)
        (>>=-congr (deliver_each me high event policy r) (deliver_bytes call n me sub event policy)
            (deliver_each me low event policy) (λ r'. deliver_bytes-each n me sub event policy r' v)
          ∙ sym (deliver_each-append me high low event policy r))

  -- The handlers that are excluded or not registered are passed over.
  deliver_each-receivers :
      (me : AsyncState) (inds : List ℕ) (event : ℕ) (policy : Policy) (r : Bool × World × S)
      → deliver_each me inds event policy r ≡ call_each me (receivers me policy inds) event policy r
  unfolding deliver_each call_each receivers deliver
  deliver_each-receivers me [] event policy r = refl
  deliver_each-receivers me (ind ∷ inds) event policy (all, w, s) =
      let others = receivers me policy inds in
      next (is_excluded policy ind) (non_null (me.handlers ind).fn) others
        λ r. deliver_each-receivers me inds event policy r
    where
      next :
          (skip some_fn : Bool) (others : List ℕ)
          → ((r : Bool × World × S)
              → deliver_each me inds event policy r ≡ call_each me others event policy r)
          → ((if skip
                then ok (all, w, s)
                else if some_fn
                then (call (me.handlers ind).fn (me.handlers ind).ctx event policy w s
                    >>= λ (is_ok, w', s'). ok (is_ok && all, w', s'))
                else ok (all, w, s))
              >>= deliver_each me inds event policy)
            ≡ call_each me
                (if not skip && some_fn then ind ∷ others else others)
                event
                policy
                (all, w, s)
      next true some_fn others same = same (all, w, s)
      next false false others same = same (all, w, s)
      next false true others same = sym (
          >>=-assoc (call (me.handlers ind).fn (me.handlers ind).ctx event policy w s)
            (λ (is_ok, w', s'). ok (is_ok && all, w', s')) (deliver_each me inds event policy)
            (λ (is_ok, w', s'). call_each me others event policy (is_ok && all, w', s'))
            λ (is_ok, w', s'). sym (same (is_ok && all, w', s')))

  -- A publication holds the event, calls the receivers among the event's subscribers, the one with
  -- the highest number first, and each of them once, and then lets go of the event. Its result
  -- says whether all of them accepted.
  pub publish-call_each :
      (me : AsyncState) (event : ℕ) (policy : Policy) (w : World) (s : S)
      → AreBytes me.sub
      → me.has_sub ≡ true
      → event ≢ 0
      → evt_user ≤ (w.event event).id
      → (w.event event).id - evt_user < me.nsub
      → let subscribed = subscribers handlers_num_max (me.sub ((w.event event).id - evt_user)) in
        publish call me event policy w s ≡ (
          (if is_static (w.event event) then ok w else (check me.alloc >> inc_ref_cnt w event))
          >>= λ w1.
              call_each me (receivers me policy subscribed) event policy (true, w1, s)
              >>= λ (all, w2, s'). free me.alloc w2 event >>= λ w3. ok (all, w3, s'))
  unfolding publish
  publish-call_each me event policy w s v enabled ne user listed =
      let some_event : non_null event ≡ true = ground arith in
      let user_id : leb evt_user (w.event event).id ≡ true = ground arith in
      let si = (w.event event).id - evt_user in
      let on_table : ltb si me.nsub ≡ true = ground arith in
      let subscribed = subscribers handlers_num_max (me.sub si) in
      let finish : Bool × World × S → Checked (Bool × World × S) =
        λ (all, w2, s'). free me.alloc w2 event >>= λ w3. ok (all, w3, s') in
      let same : (r : Bool × World × S)
          → deliver_bytes call list_size me (me.sub si) event policy r
            ≡ call_each me (receivers me policy subscribed) event policy r =
        λ r.
          deliver_bytes-each list_size me (me.sub si) event policy r (v si)
          ∙ deliver_each-receivers me subscribed event policy r in
      rw (ap check enabled, some_event, user_id, on_table)
        (>>=-congr
          (if is_static (w.event event) then ok w else (check me.alloc >> inc_ref_cnt w event))
          (λ w1. deliver_bytes call list_size me (me.sub si) event policy (true, w1, s) >>= finish)
          (λ w1.
            call_each me (receivers me policy subscribed) event policy (true, w1, s) >>= finish)
          λ w1. ap (λ m. m >>= finish) (same (true, w1, s)))
