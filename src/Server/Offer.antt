-- ===== src/Server/Offer.antt =====
-- validateOffer of internal/rtc/server.go. The parser of session descriptions is third-party code:
-- what it reads from the offer is an argument, by the fields that validateOffer looks at.
use homebrain.Prelude.{
  Bool, true, false, not, ◌&&◌, Option, none, some, List, [], ◌∷◌, ◌≡◌, ◌↔◌, inl, inr, refl, arith,
  ◌==◌, if◌then◌else◌, take, Any, All, ◌≢◌, Option-cases,
}
use homebrain.Text.{Text, codes, text_eq, text_eq_iff, split, fields, to_lower}
use homebrain.Text.Number.{ℤ, pos, negsuc}
use homebrain.Sdp.{has_line}

-- sdp.Attribute
pub record Attribute : Type 0 where
  pub key : Text
  pub content : Text

-- sdp.MediaDescription, with MediaName.Media, MediaName.Port.Value and MediaName.Formats
pub record MediaDescription : Type 0 where
  pub media : Text
  pub port : ℤ
  pub formats : List Text
  pub attributes : List Attribute

pub data OfferError : Type 0 where
  invalid_sdp audio_missing opus_missing : OfferError

abbrev pub is_zero : ℤ → Bool
is_zero (pos n) = n == 0
is_zero (negsuc n) = false

-- `len(codec) >= 2 && codec[0] == "opus" && codec[1] == "48000"`
is_opus_codec : List Text → Bool
is_opus_codec (name ∷ rate ∷ more) = text_eq name (codes "opus") && text_eq rate (codes "48000")
is_opus_codec _ = false

-- The guards on the fields of an rtpmap.
is_opus_map : List Text → List Text → Bool
unfolding is_opus_codec
is_opus_map formats (payload ∷ codec ∷ []) =
    if not (has_line payload formats)
    then false
    else is_opus_codec (split (to_lower codec) (codes "/"))
is_opus_map formats _ = false

-- The loop over the attributes of a section.
maps_opus : List Text → List Attribute → Bool
unfolding is_opus_map
maps_opus formats [] = false
maps_opus formats (a ∷ as') =
    let rest = maps_opus formats as' in
    if not (text_eq a.key (codes "rtpmap"))
    then rest
    else if is_opus_map formats (fields a.content)
    then true
    else rest

-- The loop over the sections, with `foundAudio`; `none` is no error.
check_media : Bool → List MediaDescription → Option OfferError
unfolding maps_opus
check_media found [] = some (if not found then audio_missing else opus_missing)
check_media found (m ∷ ms) =
    let rest = check_media found ms in
    let rest' = check_media true ms in
    if not (text_eq m.media (codes "audio"))
    then rest
    else if is_zero m.port
    then rest'
    else if maps_opus m.formats m.attributes
    then none
    else rest'

-- validateOffer
unfoldable pub validate_offer : (Text → Option (List MediaDescription)) → Text → Option OfferError
unfolding check_media
validate_offer parse raw = elim (parse raw) [
  | none ↦ some invalid_sdp
  | some sections ↦ check_media false sections
]

-- An rtpmap of a payload that the section offers, for Opus at 48 kHz.
abbrev pub IsOpusMap : List Text → List Text → Type 0
IsOpusMap formats fs =
    (payload : Text) × (codec : Text) × (fs ≡ payload ∷ codec ∷ [])
    × (has_line payload formats ≡ true)
    × (take 2 (split (to_lower codec) (codes "/")) ≡ codes "opus" ∷ codes "48000" ∷ [])

abbrev pub IsOpusAttribute : List Text → Attribute → Type 0
IsOpusAttribute formats a = (a.key ≡ codes "rtpmap") × IsOpusMap formats (fields a.content)

-- An audio section that is not rejected and offers Opus.
abbrev pub OffersOpus : MediaDescription → Type 0
OffersOpus m =
    (m.media ≡ codes "audio")
    × (is_zero m.port ≡ false)
    × Any (IsOpusAttribute m.formats) m.attributes

is_opus_codec_iff :
    (parts : List Text)
    → (is_opus_codec parts ≡ true) ↔ (take 2 parts ≡ codes "opus" ∷ codes "48000" ∷ [])
unfolding is_opus_codec
is_opus_codec_iff [] = ground arith
is_opus_codec_iff (name ∷ []) = ground arith
is_opus_codec_iff (name ∷ rate ∷ more) =
    ground (arith, text_eq_iff name (codes "opus"), text_eq_iff rate (codes "48000"))

is_opus_map_iff : (formats fs : List Text) → (is_opus_map formats fs ≡ true) ↔ IsOpusMap formats fs
unfolding is_opus_map
is_opus_map_iff formats [] = (λ h. absurd (cc), λ (p, c, e, h, k). absurd (ground arith))
is_opus_map_iff formats (p ∷ []) = (λ h. absurd (cc), λ (p, c, e, h, k). absurd (ground arith))
is_opus_map_iff formats (p ∷ c ∷ []) =
    let parts = is_opus_codec_iff (split (to_lower c) (codes "/")) in
    (
      λ h. (p, c, refl, ground arith, ground (arith, parts)),
      λ (p', c', e, h, k). ground (arith, parts),
    )
is_opus_map_iff formats (p ∷ c ∷ d ∷ more) =
    (λ h. absurd (cc), λ (p, c, e, h, k). absurd (ground arith))

maps_opus_iff :
    (formats : List Text) (as' : List Attribute)
    → (maps_opus formats as' ≡ true) ↔ Any (IsOpusAttribute formats) as'
unfolding maps_opus
maps_opus_iff formats [] = ground arith
maps_opus_iff formats (a ∷ as') = ground (
  arith,
  maps_opus_iff formats as',
  text_eq_iff a.key (codes "rtpmap"),
  is_opus_map_iff formats (fields a.content),
)

check_media_iff :
    (found : Bool) (ms : List MediaDescription) → (check_media found ms ≡ none) ↔ Any OffersOpus ms
unfolding check_media
check_media_iff found [] = ground arith
check_media_iff found (m ∷ ms) = ground (
  arith,
  check_media_iff found ms,
  check_media_iff true ms,
  text_eq_iff m.media (codes "audio"),
  maps_opus_iff m.formats m.attributes,
)

-- An offer passes exactly if it parses and one of its audio sections is at a port other than 0 and
-- has an rtpmap for Opus at 48 kHz whose payload the section offers.
pub validate_offer_iff :
    (parse : Text → Option (List MediaDescription)) (raw : Text)
    → (validate_offer parse raw ≡ none)
      ↔ ((sections : List MediaDescription) × (parse raw ≡ some sections) × Any OffersOpus sections)
unfolding validate_offer
validate_offer_iff parse raw = elim (Option-cases (parse raw)) [
  | inl e ↦ (λ h. absurd (ground arith), λ (sections, p, h). absurd (ground arith))
  | inr (sections, e) ↦ (
    λ h. (sections, e, ground (arith, check_media_iff false sections)),
    λ (sections', p, h).
        ground (arith, check_media_iff false sections, check_media_iff false sections'),
  )
]

abbrev pub IsOther : MediaDescription → Type 0
IsOther m = m.media ≢ codes "audio"

check_media_missing :
    (found : Bool) (ms : List MediaDescription)
    → (check_media found ms ≡ some audio_missing) ↔ ((found ≡ false) × All IsOther ms)
unfolding check_media
check_media_missing found [] = ground arith
check_media_missing found (m ∷ ms) = ground (
  arith,
  check_media_missing found ms,
  check_media_missing true ms,
  text_eq_iff m.media (codes "audio"),
)

check_media_parses :
    (found : Bool) (ms : List MediaDescription) → check_media found ms ≢ some invalid_sdp
unfolding check_media
check_media_parses found [] = ground arith
check_media_parses found (m ∷ ms) =
    ground (arith, check_media_parses found ms, check_media_parses true ms)

-- The errors of validateOffer: the SDP is called invalid exactly if it does not parse, and the
-- audio section is called missing exactly if it parses and no section is an audio section.
pub validate_offer_errors :
    (parse : Text → Option (List MediaDescription)) (raw : Text)
    → ((validate_offer parse raw ≡ some invalid_sdp) ↔ (parse raw ≡ none))
      × ((sections : List MediaDescription)
          → parse raw ≡ some sections
          → (validate_offer parse raw ≡ some audio_missing) ↔ All IsOther sections)
unfolding validate_offer
validate_offer_errors parse raw = (
  elim (Option-cases (parse raw)) [
    | inl e ↦ (λ h. e, λ p. ground arith)
    | inr (sections, e) ↦ (
      λ h. absurd (ground (arith, check_media_parses false sections)),
      λ p. absurd (ground arith),
    )
  ],
  λ sections e. ground (arith, check_media_missing false sections),
)
