-- ===== src/Relational/Resource/Roundtrip.antt =====
-- A restore of a snapshot brings the state of that moment back.
use agent_verification_proto.Base.{
  IsOk, IsOk-bind, String, true, Option, none, some, List, [], ◌∷◌, ◌≡◌, refl, sym, ap, subst, ◌∙◌,
  ◌==◌, eq_iff, contains, All, if◌then◌else◌, ok, arith,
}
use text.Mathlib.TextPositions.{eq_refl}
use agent_verification_proto.Base.Dict.{Dict, lookup}
use agent_verification_proto.Base.Sorting.{sort_by, contains-sort_by}
use agent_verification_proto.Base.Json.{Value}
use agent_verification_proto.Relational.Values.{
  RelationalRow, State, image_digest, RelationalSnapshot,
}
use agent_verification_proto.Relational.Lexical.{Lexicon}
use agent_verification_proto.Relational.Manifest.{
  RelationDefinition, RelationalManifest, relation_ids, is_subset,
}
use agent_verification_proto.Relational.States.{
  keys_of, item, or_key_error, validate_relations, validate_state, image_relations, state_image_for,
}
use agent_verification_proto.Relational.Resource.{
  state_equivalent, RelationalResource, ensure_live, state_image, snapshot, validate_snapshot_owner,
  restore,
}

found_item :
    {V : Type 0} (entries : Dict V) (key : String) (found : Option V)
    → lookup key entries ≡ found
    → IsOk (λ v. lookup key entries ≡ some v) (or_key_error found)
found_item entries key none e = tt
found_item entries key (some v) e = e

extended :
    (k relation_id : String) (rows : List RelationalRow) (later : Option (List RelationalRow))
    (state : State) (ids : List String)
    → lookup relation_id state ≡ some rows
    → (contains k ids ≡ true → later ≡ lookup k state)
    → contains k (relation_id ∷ ids) ≡ true
    → (if relation_id == k then some rows else later) ≡ lookup k state
extended k relation_id rows later state ids e rest present =
    ground (arith, e, rest, present, eq_iff relation_id k)

-- An image has the relations in their order, each with its rows.
abbrev IsImage : List RelationDefinition → State → State → Type 0
IsImage rs state image =
    (keys_of image ≡ relation_ids rs)
    × ((k : String) → contains k (relation_ids rs) ≡ true → lookup k image ≡ lookup k state)

image_relations-IsImage :
    (rs : List RelationDefinition) (state : State)
    → IsOk (IsImage rs state) (image_relations rs state)
unfolding image_relations lookup
image_relations-IsImage [] state = (refl, λ k h. absurd (ground (arith, h)))
image_relations-IsImage (r ∷ rs) state =
    IsOk-bind (λ rows. lookup r.relation_id state ≡ some rows) (IsImage (r ∷ rs) state)
      (item r.relation_id state) _
      (found_item state r.relation_id (lookup r.relation_id state) refl)
      (λ rows e.
        IsOk-bind (IsImage rs state) (IsImage (r ∷ rs) state) (image_relations rs state) _
          (image_relations-IsImage rs state)
          (λ rest h. (
            ap (λ ids. r.relation_id ∷ ids) h.0,
            λ k present.
                extended k r.relation_id rows (lookup k rest) state (relation_ids rs) e (h.1 k)
                  present,
          )))

subset_of :
    (names others : List String)
    → ((k : String) → contains k names ≡ true → contains k others ≡ true)
    → is_subset names others ≡ true
subset_of [] others h = refl
subset_of (n ∷ names) others h =
    let first : contains n others ≡ true = h n (ground (arith, eq_refl n)) in
    let rest = subset_of names others (λ k p. h k (ground (arith, p))) in
    ground (arith, first, rest)

each_of :
    (rs : List RelationDefinition) (P : String → Type 0)
    → ((k : String) → contains k (relation_ids rs) ≡ true → P k)
    → All (λ r. P r.relation_id) rs
each_of [] P h = tt
each_of (r ∷ rs) P h = (
  h r.relation_id (ground (arith, eq_refl r.relation_id)),
  each_of rs P (λ k p. h k (ground (arith, p))),
)

module _ (lexicon : Lexicon) (canonical : Value → String) (digest : Value → String) where
  -- Validation returns the state as it is.
  abbrev pub IsValid : RelationalManifest → State → Type 0
  IsValid m state = validate_state lexicon canonical m state ≡ ok state

  validate_relations-cong :
      (rs : List RelationDefinition) (a b : State)
      → All (λ r. lookup r.relation_id a ≡ lookup r.relation_id b) rs
      → validate_relations lexicon canonical rs a ≡ validate_relations lexicon canonical rs b
  unfolding validate_relations
  validate_relations-cong [] a b h = refl
  validate_relations-cong (r ∷ rs) a b h = rw (h.0, validate_relations-cong rs a b h.1) refl

  validated_relations :
      (m : RelationalManifest) (state : State)
      → IsValid m state
      → validate_relations lexicon canonical m.relations state ≡ ok state
  unfolding validate_state
  validated_relations m state h = ground (arith, h)

  validate-image :
      (m : RelationalManifest) (state image : State)
      → IsValid m state
      → IsImage (sort_by (λ r. r.relation_id) m.relations) state image
      → validate_state lexicon canonical m image ≡ ok state
  unfolding validate_state
  validate-image m state image valid (keys, lookups) =
      let sorted_ids = relation_ids (sort_by (λ r. r.relation_id) m.relations) in
      let same : (k : String) → contains k sorted_ids ≡ contains k (relation_ids m.relations) =
        λ k. contains-sort_by (λ r. r.relation_id) k m.relations in
      let there : is_subset sorted_ids (relation_ids m.relations) ≡ true =
        subset_of sorted_ids (relation_ids m.relations) (λ k h. sym (same k) ∙ h) in
      let back : is_subset (relation_ids m.relations) sorted_ids ≡ true =
        subset_of (relation_ids m.relations) sorted_ids (λ k h. same k ∙ h) in
      let equal : validate_relations lexicon canonical m.relations image ≡ ok state =
        validate_relations-cong m.relations image state (
          each_of m.relations (λ k. lookup k image ≡ lookup k state)
            (λ k h. lookups k (same k ∙ h)))
        ∙ validated_relations m state valid in
      rw (keys, there, back) equal

  -- The two moments are of one resource.
  abbrev pub IsSameResource : RelationalResource → RelationalResource → Type 0
  IsSameResource r later =
      (later.environment_id ≡ r.environment_id)
      × (later.resource_id ≡ r.resource_id)
      × (later.resource_instance_id ≡ r.resource_instance_id)
      × (later.manifest ≡ r.manifest)
      × (later.manifest_digest ≡ r.manifest_digest)

  owned_lem :
      (s : RelationalSnapshot) (r : RelationalResource)
      → s.environment_id ≡ r.environment_id
      → s.resource_id ≡ r.resource_id
      → s.resource_instance_id ≡ r.resource_instance_id
      → s.state.manifest_digest ≡ r.manifest_digest
      → validate_snapshot_owner s r ≡ ok tt
  unfolding validate_snapshot_owner
  owned_lem s r a b c d =
      rw (a, b, c, d)
        (ground (
          arith,
          eq_refl r.environment_id,
          eq_refl r.resource_id,
          eq_refl r.resource_instance_id,
          eq_refl r.manifest_digest,
        ))

  -- What a snapshot holds.
  abbrev IsTaken : RelationalResource → RelationalSnapshot → Type 0
  IsTaken r s =
      (s.environment_id ≡ r.environment_id)
      × (s.resource_id ≡ r.resource_id)
      × (s.resource_instance_id ≡ r.resource_instance_id)
      × (s.state.manifest_digest ≡ r.manifest_digest)
      × (state_image_for r.manifest_digest r.manifest r.state ≡ ok s.state)
      × (image_relations (sort_by (λ d. d.relation_id) r.manifest.relations) r.state
          ≡ ok s.state.relations)

  snapshot-IsTaken :
      (r : RelationalResource) (s : RelationalSnapshot) → (snapshot r).0 ≡ ok s → IsTaken r s
  unfolding snapshot state_image state_image_for
  snapshot-IsTaken r s e = ground (arith, e)

  restored_lem :
      (s : RelationalSnapshot) (r : RelationalResource) (state : State) (observed : String)
      → validate_snapshot_owner s r ≡ ok tt
      → validate_state lexicon canonical r.manifest s.state.relations ≡ ok state
      → state_image_for r.manifest_digest r.manifest state ≡ ok s.state
      → image_digest digest s.state ≡ ok observed
      → ensure_live r ≡ ok tt
      → restore lexicon canonical digest s r ≡ (ok state_equivalent, record r { state = state })
  unfolding restore state_image ensure_live
  restored_lem s r state observed owned validated imaged seen live =
      ground (arith, owned, validated, imaged, seen, live, eq_refl observed)

  -- At any later moment at which the resource is live, restoring a snapshot whose image has a digest
  -- puts the state of the snapshot's moment in place of the present one, changes nothing else, and is
  -- reported as state-equivalent. The state of that moment is one that validation returns unchanged.
  pub relational_restore-snapshot :
      (r later : RelationalResource) (s : RelationalSnapshot) (observed : String)
      → IsValid r.manifest r.state
      → (snapshot r).0 ≡ ok s
      → image_digest digest s.state ≡ ok observed
      → IsSameResource r later
      → ensure_live later ≡ ok tt
      → restore lexicon canonical digest s later
        ≡ (ok state_equivalent, record later { state = r.state })
  relational_restore-snapshot r later s observed valid taken seen (env, res, inst, man, dig) live =
      let (env1, res1, inst1, dig1, image, relations) = snapshot-IsTaken r s taken in
      let owned =
        owned_lem s later (env1 ∙ sym env) (res1 ∙ sym res) (inst1 ∙ sym inst) (dig1 ∙ sym dig) in
      let same =
        subst (IsOk (IsImage (sort_by (λ d. d.relation_id) r.manifest.relations) r.state)) relations
          (image_relations-IsImage (sort_by (λ d. d.relation_id) r.manifest.relations) r.state) in
      let validated : validate_state lexicon canonical later.manifest s.state.relations
          ≡ ok r.state =
        rw man (validate-image r.manifest r.state s.state.relations valid same) in
      let imaged : state_image_for later.manifest_digest later.manifest r.state ≡ ok s.state =
        rw (man, dig) image in
      restored_lem s later r.state observed owned validated imaged seen live
