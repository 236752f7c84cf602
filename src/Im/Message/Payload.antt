-- ===== src/Im/Message/Payload.antt =====
-- The payload of a message: what a message gives when it is asked again, and which payloads make
-- GetContentType panic.
use jian_yu_server_lib.Base.{◌≡◌, ◌≢◌, ◌↔◌, ◌⊎◌, inl, inr, refl, sym, Option, none, some}
use jian_yu_server_lib.Base.Int.{ℤ}
use jian_yu_server_lib.Base.Outcome.{panicked}
use jian_yu_server_lib.Strings.{Str}
use jian_yu_server_lib.Im.Json.{Json, null, number, decimal, fields, Fields, lookup}
use jian_yu_server_lib.Im.Message.{
  MessageResp, with_payload_map, read_map, get_payload_map, type_of, content_type, get_content_type,
}

-- The map that a message keeps is that of its payload, if it keeps one.
abbrev pub IsDecoded : MessageResp → Type 0
IsDecoded m = (m.payload_map ≡ none) ⊎ (read_map m.payload ≡ some m.payload_map)

Fields-cases : (o : Option Fields) → (o ≡ none) ⊎ ((fs : Fields) × (o ≡ some fs))
Fields-cases none = inl refl
Fields-cases (some fs) = inr (fs, refl)

Read-cases : (o : Option (Option Fields)) → (o ≡ none) ⊎ ((r : Option Fields) × (o ≡ some r))
Read-cases none = inl refl
Read-cases (some r) = inr (r, refl)

get_payload_map-kept :
    (m : MessageResp) (fs : Fields)
    → m.payload_map ≡ some fs
    → get_payload_map m ≡ (some (some fs), m)
unfolding get_payload_map
get_payload_map-kept m fs e = simp (e, get_payload_map) refl

get_payload_map-failed :
    (m : MessageResp)
    → m.payload_map ≡ none
    → read_map m.payload ≡ none
    → get_payload_map m ≡ (none, m)
unfolding get_payload_map
get_payload_map-failed m e f = simp (e, f, get_payload_map) refl

get_payload_map-read :
    (m : MessageResp) (r : Option Fields)
    → m.payload_map ≡ none
    → read_map m.payload ≡ some r
    → get_payload_map m ≡ (some r, with_payload_map m r)
unfolding get_payload_map
get_payload_map-read m r e f = simp (e, f, get_payload_map) refl

-- A message that keeps what its payload was read as gives it again.
get_payload_map-again :
    (m : MessageResp) (r : Option Fields)
    → read_map m.payload ≡ some r
    → get_payload_map (with_payload_map m r) ≡ (some r, with_payload_map m r)
get_payload_map-again m none f = get_payload_map-read (with_payload_map m none) none refl f
get_payload_map-again m (some fs) f = get_payload_map-kept (with_payload_map m (some fs)) fs refl

-- A message gives the map of its payload, or the error of decoding it, each time that it is asked,
-- and what it keeps is that map: asked again, it gives the same and stays as it is. Before it is
-- asked first it keeps no map, or that of its payload.
pub get_payload_map_lem :
    (m : MessageResp)
    → IsDecoded m
    → ((get_payload_map m).0 ≡ read_map m.payload)
      × IsDecoded (get_payload_map m).1
      × (get_payload_map (get_payload_map m).1 ≡ get_payload_map m)
get_payload_map_lem m h = elim (Fields-cases m.payload_map) [
  | inr (fs, kept) ↦
      let same : read_map m.payload ≡ some (some fs) = elim h [ inl e ↦ absurd cc | inr e ↦ cc ] in
      let gives = get_payload_map-kept m fs kept in rw gives (sym same, h, gives)
  | inl nil ↦ elim (Read-cases (read_map m.payload)) [
    | inl e ↦ let gives = get_payload_map-failed m nil e in rw gives (sym e, h, gives)
    | inr (r, e) ↦ rw (get_payload_map-read m r nil e) (sym e, inr e, get_payload_map-again m r e)
  ]
]

-- What the key `type` of a decoded payload holds
abbrev pub type_value : Option (Option Fields) → Option Json
type_value (some (some fs)) = lookup "type" fs
type_value o = none

-- There is no value, or one that is no number, of either kind.
abbrev pub NoNumber : Option Json → Type 0
NoNumber o = ((n : ℤ) → o ≢ some (number n)) × ((text : Str) → o ≢ some (decimal text))

type_of_panics : (o : Option Json) → type_of o ≡ panicked → NoNumber o
unfolding type_of
type_of_panics o h = (λ n e. absurd (cc (rw e at h)), λ text e. absurd (cc (rw e at h)))

panics_of_type : (o : Option Json) → NoNumber o → type_of o ≡ panicked
unfolding type_of
panics_of_type none h = refl
panics_of_type (some (number n)) h = absurd (h.0 n refl)
panics_of_type (some (decimal text)) h = absurd (h.1 text refl)
panics_of_type (some null) h = refl
panics_of_type (some (Json.bool b)) h = refl
panics_of_type (some (Json.string s)) h = refl
panics_of_type (some (Json.array a)) h = refl
panics_of_type (some (fields fs)) h = refl

content_type_panics_iff :
    (o : Option (Option Fields))
    → (content_type o ≡ panicked) ↔ ((o ≢ none) × NoNumber (type_value o))
unfolding content_type
content_type_panics_iff none = ((λ h. absurd cc), λ h. absurd (h.0 refl))
content_type_panics_iff (some none) = ((λ h. ((λ e. cc), ((λ n e. cc), λ text e. cc))), λ h. refl)
content_type_panics_iff (some (some fs)) = (
  λ h. ((λ e. cc), type_of_panics (lookup "type" fs) h),
  λ h. panics_of_type (lookup "type" fs) h.1,
)

-- GetContentType panics exactly for a payload that decodes to a map, or is `null`, and has no number
-- under the key `type`, of any kind; that the payload does not decode is no panic. Where a key stands
-- twice the last value counts. Before the message is asked it keeps no map, or that of its payload.
pub get_content_type_panics_iff :
    (m : MessageResp)
    → IsDecoded m
    → ((get_content_type m).0 ≡ panicked)
      ↔ ((read_map m.payload ≢ none) × NoNumber (type_value (read_map m.payload)))
unfolding get_content_type
get_content_type_panics_iff m h =
    rw ((get_payload_map_lem m h).0) (content_type_panics_iff (read_map m.payload))
