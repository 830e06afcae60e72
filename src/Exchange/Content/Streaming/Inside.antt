-- ===== src/Exchange/Content/Streaming/Inside.antt =====
-- That the indexes of a datum are inside its meta data and its payload, for
-- `_exchange_add_current_data_to_request_by_streaming` of
-- MindConnect_Library_V3.1.3.0/src/http_processor.c, and the steps of the function that keep them there.
use iot_eclipse.Base.{
  ℕ, ◌≡◌, ◌≤◌, ◌<◌, ◌-◌, ◌^◌, refl, Bool, true, false, Option, none, some, length, if◌then◌else◌,
  arith,
}
use iot_eclipse.Base.Bytes.{Bytes}
use iot_eclipse.Code.{ErrorCode}
use iot_eclipse.Memory.{M}
use iot_eclipse.StringType.{add_size}
use iot_eclipse.HttpRequest.{Request, sub_size}
use iot_eclipse.Exchange.Content.{
  Sources, StoreData, StreamInfo, DataType, time_series, event_list, file, custom_data, stream,
  data_source_configuration, is_stream, MetaState, nothing_open, tuple_open, section_open,
}
use iot_eclipse.Exchange.Content.Streaming.{
  Writing, Stage, early, carry, next_stage, on_request, if_ok, move_meta, move_payload, mark_open,
  set_meta_state, open_section, add_raw, at_most, copy_payload,
}

-- A datum of known size, and indexes that are not behind its ends.
pub record Inside (datum : StoreData) (info : StreamInfo) : Type 0 where
  pub known : is_stream datum.kind ≡ false
  pub meta_size : length datum.meta < 2 ^ 64
  pub payload_size : datum.payload_size < 2 ^ 64
  pub meta : info.meta_stream_index ≤ length datum.meta
  pub payload : info.payload_stream_index ≤ datum.payload_size

abbrev pub Held : Writing → Type 0
Held t = Inside t.datum t.info

unfoldable pub HeldStage : Stage → Type 0
HeldStage (early code t) = Held t
HeldStage (carry code t) = Held t

at_most-le : (left room : ℕ) → at_most left room ≤ left
at_most-le left room = ground arith

left : (size index : ℕ) → size < 2 ^ 64 → index ≤ size → sub_size size index ≡ size - index
left size index small inside = omega arith

pub moved :
    (size index room : ℕ)
    → size < 2 ^ 64
    → index ≤ size
    → add_size index (at_most (sub_size size index) room) ≤ size
moved size index room small inside =
    let e = left size index small inside in
    let at = at_most-le (sub_size size index) room in omega arith

pub next-Held :
    (stage : Stage) (next : ErrorCode → Writing → Stage)
    → ((code : ErrorCode) (t : Writing) → Held t → HeldStage (next code t))
    → HeldStage stage
    → HeldStage (next_stage stage next)
unfolding HeldStage
next-Held (early code t) next keeps held = held
next-Held (carry code t) next keeps held = keeps code t held

pub if_either :
    {A : Type 0} (P : A → Type 0) (test : Bool) {x y : A} → P x → P y → P (if test then x else y)
if_either P true holds _ = holds
if_either P false _ holds = holds

early-Held : (code : ErrorCode) (t : Writing) → Held t → HeldStage (early code t)
unfolding HeldStage
early-Held code t held = held

pub carry-Held : (code : ErrorCode) (t : Writing) → Held t → HeldStage (carry code t)
unfolding HeldStage
carry-Held code t held = held

pub if_ok-Held :
    (result : ErrorCode × Writing) (next : Writing → Writing)
    → Held result.1
    → Held (next result.1)
    → HeldStage (if_ok result next)
if_ok-Held (code, t) next held next_held =
    if_either HeldStage _ (carry-Held _ _ next_held) (early-Held _ _ held)

-- An operation on the request leaves the datum and the indexes.
abbrev pub Same : Writing → Writing → Type 0
Same t t' = (t'.datum ≡ t.datum) × (t'.info ≡ t.info)

pub on_request-Held :
    (request : Option Request) (operation : Request → M (ErrorCode × Option Request)) (t : Writing)
    → Held t
    → Held (on_request request operation t).1
on_request-Held none operation t held = held
on_request-Held (some r) operation t held = held

pub add_raw-Same :
    (sources : Sources) (request : Option Request) (copy : ℕ → Bytes) (n : ℕ) (t : Writing)
    → Same t (add_raw sources request copy n t).0.1
add_raw-Same sources none copy n t = (refl, refl)
add_raw-Same sources (some r) copy n t = (refl, refl)

pub copy_payload-Same :
    (sources : Sources) (d : ℕ) (kind : DataType) (n room : ℕ) (t : Writing)
    → is_stream kind ≡ false
    → Same t (copy_payload sources d kind n room t).1
copy_payload-Same sources d file n room t known = add_raw-Same sources t.request _ n t
copy_payload-Same sources d stream n room t known = ground (arith, known)
copy_payload-Same sources d time_series n room t known = add_raw-Same sources t.request _ n t
copy_payload-Same sources d event_list n room t known = add_raw-Same sources t.request _ n t
copy_payload-Same sources d custom_data n room t known = add_raw-Same sources t.request _ n t
copy_payload-Same sources d data_source_configuration n room t known =
    add_raw-Same sources t.request _ n t

pub open_section-Held :
    (sources : Sources) (request : Option Request) (kind : Bytes) (t : Writing)
    → Held t
    → Held (open_section sources request kind t).1
open_section-Held sources none kind t held = held
open_section-Held sources (some r) kind t held = record {
  known = held.known;
  meta_size = held.meta_size;
  payload_size = held.payload_size;
  meta = held.meta;
  payload = held.payload;
}

pub Same-Held : (t t' : Writing) → Same t t' → Held t → Held t'
Same-Held t t' same held = rw (same.0, same.1) held

pub meta_moved :
    (t t' : Writing) (index : ℕ)
    → Same t t'
    → Held t
    → index ≤ length t.datum.meta
    → Held (move_meta index t')
meta_moved t t' index same held inside =
    let held' = Same-Held t t' same held in
    record {
      known = held'.known;
      meta_size = held'.meta_size;
      payload_size = held'.payload_size;
      meta = rw (same.0) inside;
      payload = held'.payload;
    }

pub payload_moved :
    (t t' : Writing) (n : ℕ)
    → Same t t'
    → Held t
    → add_size t.info.payload_stream_index n ≤ t.datum.payload_size
    → Held (move_payload n t')
payload_moved t t' n same held inside =
    let held' = Same-Held t t' same held in
    record {
      known = held'.known;
      meta_size = held'.meta_size;
      payload_size = held'.payload_size;
      meta = held'.meta;
      payload = rw (same.0, same.1) inside;
    }

pub opened : (t : Writing) → Held t → Held (mark_open t)
opened t held = record {
  known = held.known;
  meta_size = held.meta_size;
  payload_size = held.payload_size;
  meta = held.meta;
  payload = held.payload;
}

pub state_moved : (state : MetaState) (t : Writing) → Held t → Held (set_meta_state state t)
state_moved state t held = record {
  known = held.known;
  meta_size = held.meta_size;
  payload_size = held.payload_size;
  meta = held.meta;
  payload = held.payload;
}

pub any_state :
    (state : MetaState) (x y z : Stage)
    → HeldStage x
    → HeldStage y
    → HeldStage z
    → HeldStage (elim state [ nothing_open ↦ x | tuple_open ↦ y | section_open ↦ z ])
any_state nothing_open x y z held _ _ = held
any_state tuple_open x y z _ held _ = held
any_state section_open x y z _ _ held = held

unfoldable pub HeldEnd : (ErrorCode × Bool) × Writing → Type 0
HeldEnd (result, t) = Held t

pub held_end : (result : ErrorCode × Bool) (t : Writing) → Held t → HeldEnd (result, t)
unfolding HeldEnd
held_end result t held = held
