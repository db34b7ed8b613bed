-- ===== src/Channel/Envelopes/Accepts.antt =====
-- What ValidateAndDecode accepts.
use rtk_account_manager.Common.{
  ℕ, String, str_eq, eq_iff, ◌≡◌, refl, sym, subst, ◌∙◌, ap, ◌⊎◌, inl, inr, ◌↔◌, ◌≢◌, true, false,
  not, Bool-cases, Option, none, some, List, [], ◌∷◌, All, Result, ok, ◌>>◌, GoError, refuse_if,
  map_error, >>=-eq-ok, >>-eq-ok, map_error-eq-ok, refuse_if-eq-ok, Result-cases, wrapped, Time,
  pos, zero_instant, arith,
}
use rtk_account_manager.Channel.Types.{
  provision_requested, Envelope, PayloadKind, PayloadOf, Payload, Codec, schema_version_v1,
}
use rtk_account_manager.Channel.Text.{is_blank}
use rtk_account_manager.Channel.Routes.{MessageSpec, message_type_of, spec_of, message_specs}
use rtk_account_manager.Channel.Routes.Laws.{message_specs-some, message_specs-message_type_of}
use rtk_account_manager.Channel.Fields.{require_non_blank, require_utc_time, contains}
use rtk_account_manager.Channel.Payloads.{validate, partition_key_of}
use rtk_account_manager.Channel.Envelopes.{
  check_header, check_spec, require_keys, require_json_fields, decode_payload, validate_and_decode,
  validate_envelope, is_nil_bytes, or_fail,
}

abbrev pub IsUtcTime : Time → Type 0
IsUtcTime t = (t.nanos ≢ zero_instant) × (t.offset ≡ pos 0)

pub record HeaderComplete (e : Envelope) : Type 0 where
  pub has_message_id : is_blank e.message_id ≡ false
  pub has_correlation_id : is_blank e.correlation_id ≡ false
  pub has_operation_id : is_blank e.operation_id ≡ false
  pub has_source_service : is_blank e.source_service ≡ false
  pub has_target_service : is_blank e.target_service ≡ false
  pub has_message_type : is_blank e.message_type ≡ false
  pub has_schema_version : is_blank e.schema_version ≡ false
  pub has_partition_key : is_blank e.partition_key ≡ false
  pub has_time : IsUtcTime e.occurred_at

check_header-HeaderComplete : (e : Envelope) → check_header e ≡ ok tt → HeaderComplete e
unfolding check_header require_utc_time require_non_blank
check_header-HeaderComplete e h = ground arith

HeaderComplete-check_header : (e : Envelope) → HeaderComplete e → check_header e ≡ ok tt
unfolding check_header require_utc_time require_non_blank
HeaderComplete-check_header e h = ground arith

-- The envelope fits the entry of its message type on the stream that the caller expects.
pub record SpecFits (e : Envelope) (stream : String) (spec : MessageSpec) : Type 0 where
  pub version : e.schema_version ≡ schema_version_v1
  pub on_stream : (stream ≡ "") ⊎ (stream ≡ spec.stream)
  pub source : e.source_service ≡ spec.source_service
  pub target : e.target_service ≡ spec.target_service

check_spec-SpecFits :
    (e : Envelope) (stream : String) (spec : MessageSpec)
    → check_spec e stream spec ≡ ok tt
    → SpecFits e stream spec
unfolding check_spec
check_spec-SpecFits e stream spec h = ground (
  arith,
  eq_iff e.schema_version schema_version_v1,
  eq_iff stream "",
  eq_iff stream spec.stream,
  eq_iff e.source_service spec.source_service,
  eq_iff e.target_service spec.target_service,
)

SpecFits-check_spec :
    (e : Envelope) (stream : String) (spec : MessageSpec)
    → SpecFits e stream spec
    → check_spec e stream spec ≡ ok tt
unfolding check_spec
SpecFits-check_spec e stream spec h = ground (
  arith,
  eq_iff e.schema_version schema_version_v1,
  eq_iff stream "",
  eq_iff stream spec.stream,
  eq_iff e.source_service spec.source_service,
  eq_iff e.target_service spec.target_service,
)

require_keys-All :
    (keys fields : List String)
    → require_keys keys fields ≡ ok tt
    → All (λ f. contains keys f ≡ true) fields
unfolding require_keys
require_keys-All keys [] h = tt
require_keys-All keys (f ∷ fs) h = elim (Bool-cases (contains keys f)) [
  | inl e ↦ (e, require_keys-All keys fs (ground arith))
  | inr e ↦ absurd (ground arith)
]

All-require_keys :
    (keys fields : List String)
    → All (λ f. contains keys f ≡ true) fields
    → require_keys keys fields ≡ ok tt
unfolding require_keys
All-require_keys keys [] h = refl
All-require_keys keys (f ∷ fs) h = rw h.0 (All-require_keys keys fs h.1)

-- The raw payload is an object with these keys; nothing is asked where none is required.
abbrev pub HasKeys : Codec → List ℕ → List String → Type 0
HasKeys codec bytes [] = Unit
HasKeys codec bytes (f ∷ fs) =
    (keys : List String) × (codec.object_keys bytes ≡ ok keys)
    × All (λ g. contains keys g ≡ true) (f ∷ fs)

or_fail-eq-ok {ℓ} :
    {A : Type ℓ} (o : Option A) (x : GoError) {a : A} → or_fail o x ≡ ok a → o ≡ some a
or_fail-eq-ok none x h = cc
or_fail-eq-ok (some a) x h = ground arith

not_nil : (bytes : List ℕ) → bytes ≢ [] → is_nil_bytes bytes ≡ false
not_nil [] h = absurd (h refl)
not_nil (b ∷ bs) h = refl

module _ (codec : Codec) where
  json_fields-HasKeys :
      (bytes : List ℕ) (fields : List String)
      → require_json_fields codec bytes fields ≡ ok tt
      → HasKeys codec bytes fields
  unfolding require_json_fields
  json_fields-HasKeys bytes [] h = tt
  json_fields-HasKeys bytes (f ∷ fs) h = elim (Result-cases (codec.object_keys bytes)) [
    | inl (keys, e) ↦ (keys, e, require_keys-All keys (f ∷ fs) (rw e at h))
    | inr (x, e) ↦ absurd (ground arith)
  ]

  HasKeys-json_fields :
      (bytes : List ℕ) (fields : List String)
      → HasKeys codec bytes fields
      → require_json_fields codec bytes fields ≡ ok tt
  unfolding require_json_fields
  HasKeys-json_fields bytes [] h = refl
  HasKeys-json_fields bytes (f ∷ fs) (keys, e, all) = rw e (All-require_keys keys (f ∷ fs) all)

  -- What the package asks of a message on `stream` that carries the payload `p`.
  pub record Accepts (e : Envelope) (stream : String) (p : Payload) : Type 0 where
    pub header : HeaderComplete e
    pub has_payload : e.payload ≢ []
    pub named : e.message_type ≡ message_type_of p.kind
    pub fits : SpecFits e stream (spec_of p.kind)
    pub keys : HasKeys codec e.payload (spec_of p.kind).required_json_fields
    pub decoded : codec.decode p.kind e.payload ≡ ok p.body
    pub valid : validate codec.lower_rune p.kind p.body ≡ ok tt
    pub partitioned : e.partition_key ≡ partition_key_of p.kind p.body

  decode_payload-accepts :
      (e : Envelope) (k : PayloadKind) (p : Payload)
      → decode_payload codec e k ≡ ok p
      → (b : PayloadOf k) × (p ≡ record { kind = k; body = b })
        × (codec.decode k e.payload ≡ ok b)
        × (validate codec.lower_rune k b ≡ ok tt)
        × (e.partition_key ≡ partition_key_of k b)
  unfolding decode_payload
  decode_payload-accepts e k p h =
      let (b, d, rest) =
        >>=-eq-ok (map_error (wrapped "payload: ") (codec.decode k e.payload)) _ h in
      let (v, rest') = >>-eq-ok (validate codec.lower_rune k b) _ rest in
      let (q, made) =
        >>-eq-ok (refuse_if (not (str_eq e.partition_key (partition_key_of k b))) _) _ rest' in
      (
        b,
        cc made,
        map_error-eq-ok _ (codec.decode k e.payload) d,
        v,
        ground (arith, refuse_if-eq-ok _ _ q, eq_iff e.partition_key (partition_key_of k b)),
      )

  accepts-decode_payload :
      (e : Envelope) (k : PayloadKind) (b : PayloadOf k)
      → codec.decode k e.payload ≡ ok b
      → validate codec.lower_rune k b ≡ ok tt
      → e.partition_key ≡ partition_key_of k b
      → decode_payload codec e k ≡ ok (record { kind = k; body = b })
  unfolding decode_payload
  accepts-decode_payload e k b d v q =
      rw (d, v, (eq_iff e.partition_key (partition_key_of k b)).1 q)

  -- The tests that follow the look-up of the message type, for a known kind.
  abbrev after_lookup : Envelope → String → MessageSpec → Result Payload
  after_lookup e stream spec = do
    check_spec e stream spec
    require_json_fields codec e.payload spec.required_json_fields
    decode_payload codec e spec.new_payload

  new_payload-spec_of : (k : PayloadKind) → (spec_of k).new_payload ≡ k
  new_payload-spec_of provision_requested = refl
  new_payload-spec_of _ = refl

  after_lookup-Accepts :
      (e : Envelope) (stream : String) (k : PayloadKind) (p : Payload)
      → HeaderComplete e
      → e.payload ≢ []
      → e.message_type ≡ message_type_of k
      → after_lookup e stream (spec_of k) ≡ ok p
      → Accepts e stream p
  after_lookup-Accepts e stream k p header full named h =
      let (fits, r) = >>-eq-ok (check_spec e stream (spec_of k)) _ h in
      let (keys, r') =
        >>-eq-ok (require_json_fields codec e.payload (spec_of k).required_json_fields) _ r in
      let (b, made, decoded, valid, partitioned) =
        decode_payload-accepts e k p (rw new_payload-spec_of at r') in
      subst (Accepts e stream) (sym made) (record {
        header = header;
        has_payload = full;
        named = named;
        fits = check_spec-SpecFits e stream (spec_of k) fits;
        keys = json_fields-HasKeys e.payload (spec_of k).required_json_fields keys;
        decoded = decoded;
        valid = valid;
        partitioned = partitioned;
      })

  -- ValidateAndDecode returns the payload `p` exactly for the envelopes that satisfy `Accepts`: each
  -- identifier is non-blank, the time is set and in UTC, the message type names the payload's kind,
  -- schema, stream, source and target are those of its entry, the required keys are present, and the
  -- payload decodes, is valid and carries the partition key as its account_device_id.
  pub validate_and_decode_iff :
      (e : Envelope) (stream : String) (p : Payload)
      → (validate_and_decode codec e stream ≡ ok p) ↔ Accepts e stream p
  unfolding validate_and_decode
  validate_and_decode_iff e stream p = (forth, back)
    where
      looked_up :
          (spec : MessageSpec)
          → message_specs e.message_type ≡ some spec
          → after_lookup e stream spec ≡ ok p
          → HeaderComplete e
          → e.payload ≢ []
          → Accepts e stream p
      looked_up spec found h header full =
          let (k, named, is) = message_specs-some e.message_type spec found in
          after_lookup-Accepts e stream k p header full named
            (subst (λ s. after_lookup e stream s ≡ ok p) is h)

      forth : validate_and_decode codec e stream ≡ ok p → Accepts e stream p
      forth h =
          let (h1, r1) = >>-eq-ok (check_header e) _ h in
          let (h2, r2) = >>-eq-ok (refuse_if (is_nil_bytes e.payload) _) _ r1 in
          let (spec, h3, r3) = >>=-eq-ok (or_fail (message_specs e.message_type) _) _ r2 in
          looked_up spec (or_fail-eq-ok (message_specs e.message_type) _ h3) r3
            (check_header-HeaderComplete e h1) (λ n. ground (arith, refuse_if-eq-ok _ _ h2, n))

      back : Accepts e stream p → validate_and_decode codec e stream ≡ ok p
      back a =
          rw
            (
              HeaderComplete-check_header e a.header,
              not_nil e.payload a.has_payload,
              ap message_specs a.named ∙ message_specs-message_type_of p.kind,
              SpecFits-check_spec e stream (spec_of p.kind) a.fits,
              HasKeys-json_fields e.payload (spec_of p.kind).required_json_fields a.keys,
              new_payload-spec_of p.kind,
            )
            (accepts-decode_payload e p.kind p.body a.decoded a.valid a.partitioned)

  -- An envelope that Validate lets pass is one that carries an acceptable payload.
  pub validate_envelope-Accepts :
      (e : Envelope) (stream : String)
      → validate_envelope codec e stream ≡ ok tt
      → (p : Payload) × Accepts e stream p
  unfolding validate_envelope
  validate_envelope-Accepts e stream h =
      let (p, h', _) = >>=-eq-ok (validate_and_decode codec e stream) _ h in
      (p, (validate_and_decode_iff e stream p).0 h')
