-- ===== src/EventSync/Order.antt =====
-- am_event_sync_publish_request: who is called, and in which order.
use amast.Common.{
  ℕ, zero, suc, ◌+◌, ◌-◌, ◌*◌, ◌≤◌, ◌<◌, ◌≡◌, ◌≢◌, refl, ap, sym, ◌∙◌, arith, Bool, true, ltb, leb,
  ◌==◌, Checked, ok, check, ◌>>=◌, >>=-congr, >>=-assoc, List, [], ◌∷◌, ◌++◌, length, clear_bit,
  clear_bit-lt, bits_below, bits_below-length, Bool-cases, ==_iff, inl, inr, bits_below-zero,
}
use amast.Slist.{non_null}
use amast.Event.{World, evt_user}
use amast.Bit.{u8_msb}
use amast.Bit.Msb.{bits_below-msb, u8_msb-lt}
use amast.EventLists.{AreBytes, shifted}
use amast.EventAsync.{list_size}
use amast.EventSync.{
  SyncHub, recursion_max, deeper, shallower, deliver, deliver_byte, deliver_bytes, publish_request,
}

-- The handlers on `n` bytes from byte `i` on: byte by byte, and in each the highest first.
unfoldable pub in_call_order : ℕ → (i : ℕ) → (ℕ → ℕ) → List ℕ
in_call_order zero i sub = []
in_call_order (suc n) i sub = shifted i (bits_below 8 (sub i)) ++ in_call_order n (suc i) sub

module _ {S : Type 0}
    (call : (fn ctx event out out_size : ℕ)
      → SyncHub
      → World
      → S
      → Checked (Bool × SyncHub × World × S))
    (observe : (fn handler_id event : ℕ) → S → S) where
  -- The handlers are observed and called one after the other.
  pub call_each :
      List ℕ
      → (event out out_size : ℕ) → Bool × SyncHub × World × S
      → Checked (Bool × SyncHub × World × S)
  call_each [] event out out_size r = ok r
  call_each (h ∷ hs) event out out_size r =
      deliver call observe h event out out_size r >>= call_each hs event out out_size

  call_each-append :
      (xs ys : List ℕ) (event out out_size : ℕ) (r : Bool × SyncHub × World × S)
      → call_each (xs ++ ys) event out out_size r
        ≡ (call_each xs event out out_size r >>= call_each ys event out out_size)
  unfolding call_each
  call_each-append [] ys event out out_size r = refl
  call_each-append (x ∷ xs) ys event out out_size r =
      >>=-assoc (deliver call observe x event out out_size r) (call_each xs event out out_size)
        (call_each ys event out out_size) (call_each (xs ++ ys) event out out_size)
        (call_each-append xs ys event out out_size)

  deliver_byte-each :
      (fuel i list event out out_size : ℕ) (r : Bool × SyncHub × World × S)
      → list < 256
      → length (bits_below 8 list) < fuel
      → deliver_byte call observe fuel i list event out out_size r
        ≡ call_each (shifted i (bits_below 8 list)) event out out_size r
  unfolding deliver_byte call_each
  deliver_byte-each zero i list event out out_size r lt enough = absurd (omega arith)
  deliver_byte-each (suc fuel) i list event out out_size r lt enough =
      elim (Bool-cases (list == 0)) [
        | inl e ↦
            let zero_list : list ≡ 0 = (==_iff list 0).0 e in
            rw (e, zero_list, bits_below-zero) refl
        | inr e ↦
            let ne : list ≢ 0 = ground arith in
            let msb = u8_msb list in
            let split = bits_below-msb list lt ne in
            let small = clear_bit-lt list msb lt (u8_msb-lt list lt ne) in
            let fewer : length (bits_below 8 (clear_bit list msb)) < fuel =
              omega (arith, ap length split) in
            rw (e, split)
              (>>=-congr (deliver call observe (8 * i + msb) event out out_size r)
                (deliver_byte call observe fuel i (clear_bit list msb) event out out_size)
                (call_each (shifted i (bits_below 8 (clear_bit list msb))) event out out_size)
                λ r'.
                  deliver_byte-each fuel i (clear_bit list msb) event out out_size r' small fewer)
      ]

  deliver_bytes-each :
      (n i : ℕ) (sub : ℕ → ℕ) (event out out_size : ℕ) (r : Bool × SyncHub × World × S)
      → ((k : ℕ) → sub k < 256)
      → deliver_bytes call observe n i sub event out out_size r
        ≡ call_each (in_call_order n i sub) event out out_size r
  unfolding deliver_bytes in_call_order call_each
  deliver_bytes-each zero i sub event out out_size r v = refl
  deliver_bytes-each (suc n) i sub event out out_size r v =
      let enough : length (bits_below 8 (sub i)) < 9 = omega (arith, bits_below-length 8 (sub i)) in
      let here = shifted i (bits_below 8 (sub i)) in
      let later = in_call_order n (suc i) sub in
      rw (deliver_byte-each 9 i (sub i) event out out_size r (v i) enough) (
        >>=-congr (call_each here event out out_size r)
          (deliver_bytes call observe n (suc i) sub event out out_size)
          (call_each later event out out_size)
          (λ r'. deliver_bytes-each n (suc i) sub event out out_size r' v)
        ∙ sym (call_each-append here later event out out_size r))

  -- A publication to a hub below its limit of nested calls calls each handler on the list of the
  -- event, as the list is at its start: byte by byte, and in each byte the highest number first.
  pub publish_request-call_each :
      (event out out_size : ℕ) (hub : SyncHub) (w : World) (s : S)
      → AreBytes hub.sub
      → hub.has_sub ≡ true
      → hub.recursion_count < recursion_max
      → event ≢ 0
      → evt_user ≤ (w.event event).id
      → (w.event event).id - evt_user < hub.nsub
      → publish_request call observe event out out_size hub w s ≡ (
          call_each
            (in_call_order list_size 0 (hub.sub ((w.event event).id - evt_user)))
            event
            out
            out_size
            (true, deeper hub, w, s)
          >>= λ (all, hub', w', s'). ok (all, shallower hub', w', s'))
  unfolding publish_request
  publish_request-call_each event out out_size hub w s v enabled few ne user listed =
      let shallow : ltb hub.recursion_count recursion_max ≡ true = ground arith in
      let some_event : non_null event ≡ true = ground arith in
      let user_id : leb evt_user (w.event event).id ≡ true = ground arith in
      let si = (w.event event).id - evt_user in
      let on_table : ltb si hub.nsub ≡ true = ground arith in
      rw
        (
          ap check enabled,
          shallow,
          some_event,
          user_id,
          on_table,
          deliver_bytes-each list_size 0 (hub.sub si) event out out_size (true, deeper hub, w, s)
              (v si),
        )
        refl
