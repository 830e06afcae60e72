-- ===== src/Store.antt =====
-- The store of MindConnect_Library_V3.1.3.0/src/store.c: two lists of the data to be sent. The items
-- of the lists are the addresses of `store_data_t` objects, whose states stand apart.
pub mod Version
mod Examples
use iot_eclipse.Base.{
  ℕ, zero, suc, ◌+◌, ◌-◌, ◌%◌, ◌^◌, Bool, true, false, ◌&&◌, ◌||◌, none, some, List, [], ◌∷◌, ◌==◌,
  ltb, if◌then◌else◌,
}
use iot_eclipse.Base.Bytes.{Bytes, at}
use iot_eclipse.StringUtil.{strlen, find}
use iot_eclipse.Code.{ErrorCode}
use iot_eclipse.LinkedList.{Ptr, ListT, Cmd, list_remove_with_content}

-- `E_STORE_DATA_STATE`
pub data DataState : Type 0 where
  initial prepared written streaming sent : DataState

-- `DATA_STATE_SENT == state`
abbrev pub is_sent : DataState → Bool
is_sent DataState.sent = true
is_sent _ = false

-- `mcl_store_t`
pub record Store : Type 0 where
  pub streamable : Bool
  pub high : ListT
  pub low : ListT

abbrev pub States : Type 0
States = ℕ → DataState

-- `store_data_set_state`
unfoldable pub store_data_set_state : ℕ → DataState → States → States
store_data_set_state d state states a = if a == d then state else states a

-- `store_data_get_state`
abbrev pub store_data_get_state : ℕ → States → DataState
store_data_get_state d states = states d

-- `store_data_remove`: with the items that were destroyed.
unfoldable pub store_data_remove : ListT → Ptr → Cmd (ErrorCode × ListT × List ℕ)
store_data_remove = list_remove_with_content

-- `store_get_data_count`
unfoldable pub store_get_data_count : Store → ℕ
store_get_data_count store = (store.high.count + store.low.count) % 2 ^ 64

-- The loop of `_is_positive_integer`, with the rounds that are left.
unfoldable pub digits_loop : ℕ → Bytes → ℕ → Bool → Bool
digits_loop zero version index status = status
digits_loop (suc k) version index status =
    digits_loop k version (index + 1)
      (if ltb (at version index) b'0' || ltb b'9' (at version index) then false else status)

-- `_is_positive_integer`
unfoldable pub is_positive_integer : Bytes → ℕ → ℕ → Bool
is_positive_integer version start_index end_index =
    digits_loop (end_index - start_index) version start_index true

-- `_is_valid_version`: `&&` leaves out what follows a failure, also where no dot has been found.
unfoldable pub is_valid_version : Bytes → Bool
is_valid_version version = elim (find version (b'.' ∷ [])) [
  | none ↦ false
  | some dot_index ↦
      (ltb 0 dot_index && ltb dot_index (strlen version - 1))
      && (is_positive_integer version 0 dot_index
          && is_positive_integer version (dot_index + 1) (strlen version))
]
