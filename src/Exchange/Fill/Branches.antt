-- ===== src/Exchange/Fill/Branches.antt =====
-- The branches of the function that judges an attempt to add data.
use iot_eclipse.Base.{ℕ, ◌≡◌, refl, Bool, true, false}
use iot_eclipse.Code.{ErrorCode, exchange_streaming_is_active}
use iot_eclipse.Store.{streaming, store_data_set_state}
use iot_eclipse.Exchange.Fill.{
  Adding, Flags, leave, break, iterate, check_result, is_added, is_no_more_space, is_streaming,
}

module _ {S : Type 0} (ops : Adding S) (streamable : Bool) (d : ℕ) (flags : Flags)
    (code : ErrorCode) (s : S) where
  pub check_added :
      is_added code ≡ true
      → check_result ops streamable d flags (code, s)
        ≡ iterate ops streamable d (record { added_any = true; added_any_at_all = true }) s
  unfolding check_result
  check_added good = rw good refl

  pub check_failed :
      is_added code ≡ false
      → is_no_more_space code ≡ false
      → check_result ops streamable d flags (code, s) ≡ break flags s
  unfolding check_result
  check_failed bad other = rw (bad, other) refl

  pub check_leave :
      is_added code ≡ false
      → is_no_more_space code ≡ true
      → is_streaming (ops.states s d) ≡ true
      → check_result ops streamable d flags (code, s) ≡ leave exchange_streaming_is_active s
  unfolding check_result
  check_leave bad full on = rw (bad, full, on) refl

  pub check_start :
      is_added code ≡ false
      → is_no_more_space code ≡ true
      → is_streaming (ops.states s d) ≡ false
      → streamable ≡ true
      → check_result ops streamable d flags (code, s)
        ≡ iterate ops streamable d flags
            (ops.with_states (store_data_set_state d streaming (ops.states s)) s)
  unfolding check_result
  check_start bad full off may = rw (bad, full, off, may) refl

  pub check_keep :
      is_added code ≡ false
      → is_no_more_space code ≡ true
      → is_streaming (ops.states s d) ≡ false
      → streamable ≡ false
      → check_result ops streamable d flags (code, s) ≡ iterate ops streamable d flags s
  unfolding check_result
  check_keep bad full off cannot = rw (bad, full, off, cannot) refl
