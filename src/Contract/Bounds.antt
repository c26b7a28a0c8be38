-- ===== src/Contract/Bounds.antt =====
-- What a parsed manifest satisfies, whatever the value was that it was parsed from.
use laneq.Common.{
  suc, leb→le, ℕ, ◌≤◌, ◌≡◌, refl, ap, subst, List, [], ◌∷◌, Bool, true, false, Result, ok, err,
  arith, leb,
}
use laneq.Common.Lists.{length}
use laneq.Text.{Text, codes}
use laneq.Core.Guard.{priority_value}
use laneq.Sql.Order.{Every}
use laneq.Contract.{
  Fields, count_values, Value, text, list, Values, nil, cons, Handoff, ◌>>=◌, fits, encoded_size,
  check_text, bounded_text, is_digest, digest_text, get_field, object_fields, parse_successor,
  parse_each, parse_successors, keys_of, all_distinct, parse_handoff, require, freeze, parse_fields,
}
use laneq.Contract.Json.{Successor, encode_manifest}

-- A block that returns: so did its first step, and the rest of it on that value.
pub bind_returns :
    {A B : Type 0} (first : Result A) (rest : A → Result B) {value : B}
    → (first >>= rest) ≡ ok value
    → (a : A) × (first ≡ ok a) × (rest a ≡ ok value)
bind_returns (err x) rest h = cc
bind_returns (ok a) rest h = (a, refl, h)

require-eq-ok :
    {A : Type 0} (b : Bool) (m : Result A) {a : A}
    → (require b >>= λ _. m) ≡ ok a
    → (b ≡ true) × (m ≡ ok a)
require-eq-ok true m h = (refl, h)
require-eq-ok false m h = cc

-- A text that fits is no longer than the bound says, in bytes of UTF-8.
pub bounded_text-fits :
    (v : Value) (maximum : ℕ) {t : Text}
    → bounded_text v maximum ≡ ok t
    → fits (encoded_size t) maximum ≡ true
unfolding bounded_text check_text
bounded_text-fits (text s) maximum h = ground arith
bounded_text-fits v maximum h = cc

digest_text-is_digest : (v : Value) {t : Text} → digest_text v ≡ ok t → is_digest t ≡ true
unfolding digest_text
digest_text-is_digest v {t} h = let (s, _, k) = bind_returns (bounded_text v 64) _ h in ground arith

-- A parsed successor: its texts are within their bounds, and its priority has a value.
pub record IsBounded (s : Successor) : Type 0 where
  pub key_fits : fits (encoded_size s.admission_key) 256 ≡ true
  pub body_fits : fits (encoded_size s.body) 65536 ≡ true
  pub lane_fits : fits (encoded_size s.lane) 128 ≡ true
  pub value : ℕ
  pub has_value : priority_value s.priority ≡ ok value

text_field :
    {A : Type 0} (name : Text) (fs : Fields) (n : ℕ) (f : Text → Result A) {a : A}
    → ((get_field name fs >>= λ v. bounded_text v n) >>= f) ≡ ok a
    → (t : Text) × (fits (encoded_size t) n ≡ true) × (f t ≡ ok a)
text_field name fs n f h =
    let (t, e, k) = bind_returns (get_field name fs >>= λ v. bounded_text v n) f h in
    let (v, _, e') = bind_returns (get_field name fs) (λ v. bounded_text v n) e in
    (t, bounded_text-fits v n e', k)

pub parse_successor-IsBounded : (v : Value) {s : Successor} → parse_successor v ≡ ok s → IsBounded s
unfolding parse_successor
parse_successor-IsBounded v {s} h =
    let (fs, _, h1) = bind_returns (object_fields v _) _ h in
    let (priority, _, h2) = text_field (codes "priority") fs 2 _ h1 in
    let (n, e, h3) = bind_returns (priority_value priority) _ h2 in
    let (key, key_fits, h4) = text_field (codes "admission_key") fs 256 _ h3 in
    let (body, body_fits, h5) = text_field (codes "body") fs 65536 _ h4 in
    let (lane, lane_fits, h6) = text_field (codes "lane") fs 128 _ h5 in
    let parsed : IsBounded
        (record { admission_key = key; body = body; lane = lane; priority = priority }) =
      record {
        key_fits = key_fits;
        body_fits = body_fits;
        lane_fits = lane_fits;
        value = n;
        has_value = e;
      } in
    subst (IsBounded) (cc (h6)) parsed

parse_each-IsBounded :
    (vs : Values) {ss : List Successor}
    → parse_each vs ≡ ok ss
    → Every IsBounded ss × (length ss ≡ count_values vs)
unfolding parse_each
parse_each-IsBounded nil {ss} h =
    let same : [] ≡ ss = cc (h) in
    subst (λ xs. Every IsBounded xs × (length xs ≡ 0)) same (tt, refl)
parse_each-IsBounded (cons v vs) {ss} h =
    let (s, e, h1) = bind_returns (parse_successor v) _ h in
    let (rest, e', h2) = bind_returns (parse_each vs) _ h1 in
    let (all, n) = parse_each-IsBounded vs e' in
    let same : s ∷ rest ≡ ss = cc (h2) in
    subst (λ xs. Every IsBounded xs × (length xs ≡ count_values (cons v vs))) same
      ((parse_successor-IsBounded v e, all), ap suc n)

parse_successors-IsBounded :
    (v : Value) {ss : List Successor}
    → parse_successors v ≡ ok ss
    → Every IsBounded ss × (length ss ≤ 16) × (all_distinct (keys_of ss) ≡ true)
unfolding parse_successors
parse_successors-IsBounded (list vs) {ss} h =
    let (few, h1) = require-eq-ok (leb (count_values vs) 16) _ h in
    let (ss', e, h2) = bind_returns (parse_each vs) _ h1 in
    let (distinct, h3) = require-eq-ok (all_distinct (keys_of ss')) _ h2 in
    let (all, n) = parse_each-IsBounded vs e in
    let same : ss' ≡ ss = cc (h3) in
    subst (λ xs. Every IsBounded xs × (length xs ≤ 16) × (all_distinct (keys_of xs) ≡ true)) same
      (all, rw n (leb→le _ _ few), distinct)
parse_successors-IsBounded v h = cc

-- A parsed manifest: its digests are digests, it has at most 16 successors, each within bounds and
-- with a key of its own, and its canonical text is within 128 KiB and determines its digest.
pub record IsAccepted (sha256 : Text → Text) (m : Handoff) : Type 0 where
  pub input_is_digest : is_digest m.input_digest ≡ true
  pub artifact_is_digest : is_digest m.artifact_digest ≡ true
  pub receipt_is_digest : is_digest m.receipt_digest ≡ true
  pub reference_fits : fits (encoded_size m.receipt_ref) 4096 ≡ true
  pub successors_bounded : Every IsBounded m.successors
  pub few_successors : length m.successors ≤ 16
  pub distinct_keys : all_distinct (keys_of m.successors) ≡ true
  pub canonical :
      m.encoded
      ≡ encode_manifest m.input_digest m.artifact_digest m.receipt_digest m.receipt_ref m.successors
  pub encoded_fits : fits (encoded_size m.encoded) 131072 ≡ true
  pub digest_of_text : m.digest ≡ sha256 m.encoded

digest_field :
    {A : Type 0} (name : Text) (fs : Fields) (f : Text → Result A) {a : A}
    → ((get_field name fs >>= digest_text) >>= f) ≡ ok a
    → (t : Text) × (is_digest t ≡ true) × (f t ≡ ok a)
digest_field name fs f h =
    let (t, e, k) = bind_returns (get_field name fs >>= digest_text) f h in
    let (v, _, e') = bind_returns (get_field name fs) digest_text e in
    (t, digest_text-is_digest v e', k)

freeze-IsAccepted :
    (sha256 : Text → Text) (source artifact receipt reference : Text) (ss : List Successor)
    {m : Handoff}
    → is_digest source ≡ true
    → is_digest artifact ≡ true
    → is_digest receipt ≡ true
    → fits (encoded_size reference) 4096 ≡ true
    → Every IsBounded ss × (length ss ≤ 16) × (all_distinct (keys_of ss) ≡ true)
    → freeze sha256 source artifact receipt reference ss ≡ ok m
    → IsAccepted sha256 m
unfolding freeze
freeze-IsAccepted sha256 source artifact receipt reference ss {m} d1 d2 d3 r (all, few, distinct)
      h =
    let encoded = encode_manifest source artifact receipt reference ss in
    let made : Handoff = record {
      input_digest = source;
      artifact_digest = artifact;
      receipt_ref = reference;
      receipt_digest = receipt;
      successors = ss;
      encoded = encoded;
      digest = sha256 encoded;
    } in
    let (size, h') = require-eq-ok (fits (encoded_size encoded) 131072) (ok made) h in
    let accepted : IsAccepted sha256 made = record {
      input_is_digest = d1;
      artifact_is_digest = d2;
      receipt_is_digest = d3;
      reference_fits = r;
      successors_bounded = all;
      few_successors = few;
      distinct_keys = distinct;
      canonical = refl;
      encoded_fits = size;
      digest_of_text = refl;
    } in
    let same : made ≡ m = cc (h') in subst (IsAccepted sha256) same accepted

parse_fields-IsAccepted :
    (sha256 : Text → Text) (fs : Fields) {m : Handoff}
    → parse_fields sha256 fs ≡ ok m
    → IsAccepted sha256 m
unfolding parse_fields
parse_fields-IsAccepted sha256 fs h =
    let (source, d1, h2) = digest_field (codes "input_digest") fs _ h in
    let (artifact, d2, h3) = digest_field (codes "artifact_digest") fs _ h2 in
    let (receipt, d3, h4) = digest_field (codes "receipt_digest") fs _ h3 in
    let (reference, r, h5) = text_field (codes "receipt_ref") fs 4096 _ h4 in
    let (ss, e, h6) = bind_returns (get_field (codes "successors") fs >>= parse_successors) _ h5 in
    let (sv, _, e') = bind_returns (get_field (codes "successors") fs) parse_successors e in
    freeze-IsAccepted sha256 source artifact receipt reference ss d1 d2 d3 r
      (parse_successors-IsBounded sv e') h6

-- Whatever value a manifest is parsed from, what is accepted is bounded.
pub parse_handoff-IsAccepted :
    (sha256 : Text → Text) (v : Value) {m : Handoff}
    → parse_handoff sha256 v ≡ ok m
    → IsAccepted sha256 m
unfolding parse_handoff
parse_handoff-IsAccepted sha256 v h =
    let (fs, _, h1) = bind_returns (object_fields v _) (parse_fields sha256) h in
    parse_fields-IsAccepted sha256 fs h1
