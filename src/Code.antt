-- ===== src/Code.antt =====
-- The error codes of MindConnect_Library_V3.1.3.0/include/mcl/mcl_common.h that the modelled
-- functions return.
use iot_eclipse.Base.{◌≡◌, Bool, true, false, ◌⊎◌, inl, inr, refl}

pub data ErrorCode : Type 0 where
  ok fail triggered_with_null out_of_memory invalid_parameter : ErrorCode
  array_is_empty limit_exceeded bad_content_encoding : ErrorCode
  http_request_no_more_space http_request_finalize_failed : ErrorCode
  server_fail created partial_content bad_request unauthorized forbidden not_found conflict :
      ErrorCode
  precondition_fail request_payload_too_large unexpected_result_code network_send_fail : ErrorCode
  store_is_empty store_item_exceeds_max_http_request_size : ErrorCode
  exchange_streaming_is_active partially_written : ErrorCode

-- `MCL_OK == code`
abbrev pub is_ok : ErrorCode → Bool
is_ok ErrorCode.ok = true
is_ok _ = false

pub ok-cases : (c : ErrorCode) → (c ≡ ErrorCode.ok) ⊎ (is_ok c ≡ false)
ok-cases ErrorCode.ok = inl refl
ok-cases _ = inr refl
