-- ===== src/Subscriptions/Collector.antt =====
-- `SubscriptioRelationsCollector` of rmqtt/src/broker/types.rs: the relations of one node that a
-- message goes to.
use Prim.Native.String.{String}
use rmqtt.Common.{
  ℕ, ◌≡◌, refl, ap, sym, ◌∙◌, Bool, false, not, ◌&&◌, Option, none, some, List, [], ◌∷◌, ◌++◌, map,
  append-nil, append_assoc, if◌then◌else◌, same, get, put, get-put, Bool-cases, Option-cases, inl,
  inr, same→eq,
}
use rmqtt.Types.{string_key}
use rmqtt.Subscriptions.{SubscriptionOptions, is_v3, subscription_identifier}

-- A shared group, whether its chosen member is online, and the members.
abbrev pub SharedGroupType : Type 0
SharedGroupType = String × Bool × List String

pub record SubRelation : Type 0 where
  pub topic_filter : String
  pub client_id : String
  pub opts : SubscriptionOptions
  pub sub_ids : Option (List ℕ)
  pub group : Option SharedGroupType

-- The relations of version 5 have one entry for each client.
pub record SubscriptioRelationsCollector : Type 0 where
  pub v3_rels : List SubRelation
  pub v5_rels : List (String × SubRelation)

abbrev pub no_rels : SubscriptioRelationsCollector
no_rels = record { v3_rels = []; v5_rels = [] }

-- `and_modify`: the identifier joins those of the client's entry.
abbrev pub push_sub_id : Option ℕ → SubRelation → SubRelation
push_sub_id none r = r
push_sub_id (some id) r = record r {
  sub_ids = elim r.sub_ids [ some ids ↦ some (ids ++ id ∷ []) | none ↦ some (id ∷ []) ];
}

abbrev pub new_relation :
    String → String → SubscriptionOptions → Option (List ℕ) → Option SharedGroupType → SubRelation
new_relation topic_filter client_id opts sub_ids group = record {
  topic_filter = topic_filter;
  client_id = client_id;
  opts = opts;
  sub_ids = sub_ids;
  group = group;
}

abbrev pub first_id : Option ℕ → Option (List ℕ)
first_id none = none
first_id (some id) = some (id ∷ [])

-- `entry(client_id).and_modify(..).or_insert_with(..)`.
abbrev pub v5_entry :
    String
    → String
    → SubscriptionOptions
    → Option SharedGroupType
    → Option SubRelation
    → SubRelation
v5_entry topic_filter client_id opts group (some r) = push_sub_id (subscription_identifier opts) r
v5_entry topic_filter client_id opts group none =
    new_relation topic_filter client_id opts (first_id (subscription_identifier opts)) group

-- `SubscriptioRelationsCollector::add`.
unfoldable pub add :
    String
    → String
    → SubscriptionOptions
    → Option SharedGroupType
    → SubscriptioRelationsCollector
    → SubscriptioRelationsCollector
add topic_filter client_id opts group c =
    if is_v3 opts
    then record c {
      v3_rels = c.v3_rels ++ new_relation topic_filter client_id opts none group ∷ [];
    }
    else record c {
      v5_rels =
          put client_id (v5_entry topic_filter client_id opts group (get client_id c.v5_rels))
            c.v5_rels;
    }

-- `SubRelations::from`.
unfoldable pub into_rels : SubscriptioRelationsCollector → List SubRelation
into_rels c = c.v3_rels ++ map (λ e. e.1) c.v5_rels

-- One call of `add`.
pub record Added : Type 0 where
  pub topic_filter : String
  pub client_id : String
  pub opts : SubscriptionOptions
  pub group : Option SharedGroupType

pub add_all : List Added → SubscriptioRelationsCollector → SubscriptioRelationsCollector
add_all [] c = c
add_all (a ∷ added) c = add_all added (add a.topic_filter a.client_id a.opts a.group c)

-- The calls for a client of version 5.
abbrev pub of_client : String → List Added → List Added
of_client client_id [] = []
of_client client_id (a ∷ added) =
    if not (is_v3 a.opts) && same a.client_id client_id
    then a ∷ of_client client_id added
    else of_client client_id added

-- The subscription identifiers of the calls, in their order.
abbrev pub ids_of : List Added → List ℕ
ids_of [] = []
ids_of (a ∷ added) = elim (subscription_identifier a.opts) [
  | some id ↦ id ∷ ids_of added
  | none ↦ ids_of added
]

abbrev pub extend_ids : Option (List ℕ) → List ℕ → Option (List ℕ)
extend_ids ids [] = ids
extend_ids none (id ∷ ids) = some (id ∷ ids)
extend_ids (some xs) (id ∷ ids) = some (xs ++ id ∷ ids)

-- The relation that stands for the calls of a client.
abbrev pub merged : Option SubRelation → List Added → Option SubRelation
merged (some r) added = some (record r { sub_ids = extend_ids r.sub_ids (ids_of added) })
merged none [] = none
merged none (a ∷ added) =
    some (
      new_relation a.topic_filter a.client_id a.opts (extend_ids none (ids_of (a ∷ added))) a.group)

abbrev pub v3_relations : List Added → List SubRelation
v3_relations [] = []
v3_relations (a ∷ added) =
    if is_v3 a.opts
    then new_relation a.topic_filter a.client_id a.opts none a.group ∷ v3_relations added
    else v3_relations added

extend_ids_step :
    (o : Option (List ℕ)) (id : ℕ) (ids : List ℕ)
    → extend_ids (elim o [ some xs ↦ some (xs ++ id ∷ []) | none ↦ some (id ∷ []) ]) ids
      ≡ extend_ids o (id ∷ ids)
extend_ids_step none id [] = refl
extend_ids_step none id (j ∷ ids) = refl
extend_ids_step (some xs) id [] = refl
extend_ids_step (some xs) id (j ∷ ids) = ap some (append_assoc xs (id ∷ []) (j ∷ ids))

merged-v5_entry :
    (a : Added) (o : Option SubRelation) (added : List Added)
    → merged (some (v5_entry a.topic_filter a.client_id a.opts a.group o)) added
      ≡ merged o (a ∷ added)
merged-v5_entry a (some r) added = elim (Option-cases (subscription_identifier a.opts)) [
  | inl e ↦ rw (e, ids_of) refl
  | inr (id, e) ↦
      rw (e, ids_of)
        (ap (λ z. some (record r { sub_ids = z })) (extend_ids_step r.sub_ids id (ids_of added)))
]
merged-v5_entry a none added = elim (Option-cases (subscription_identifier a.opts)) [
  | inl e ↦ rw (e, ids_of) refl
  | inr (id, e) ↦
      rw (e, ids_of)
        (ap (λ z. some (new_relation a.topic_filter a.client_id a.opts z a.group))
          (extend_ids_step none id (ids_of added)))
]

merged_nothing : (o : Option SubRelation) → merged o [] ≡ o
merged_nothing none = refl
merged_nothing (some r) = refl

get_v5-add :
    (a : Added) (c : String) (k : SubscriptioRelationsCollector)
    → is_v3 a.opts ≡ false
    → get c (add a.topic_filter a.client_id a.opts a.group k).v5_rels ≡ (
        if same a.client_id c
        then some (v5_entry a.topic_filter a.client_id a.opts a.group (get a.client_id k.v5_rels))
        else get c k.v5_rels)
unfolding add
get_v5-add a c k e = rw e (
    get-put a.client_id c
      (v5_entry a.topic_filter a.client_id a.opts a.group (get a.client_id k.v5_rels)) k.v5_rels)

get-add :
    (a : Added) (c : String) (k : SubscriptioRelationsCollector) (added : List Added)
    → merged (get c (add a.topic_filter a.client_id a.opts a.group k).v5_rels) (of_client c added)
      ≡ merged (get c k.v5_rels) (of_client c (a ∷ added))
unfolding add
get-add a c k added = elim (Bool-cases (is_v3 a.opts)) [
  | inl e ↦ rw e refl
  | inr e ↦ elim (Bool-cases (same a.client_id c)) [
    | inl h ↦
        rw (get_v5-add a c k e, e, h)
          (merged-v5_entry a (get a.client_id k.v5_rels) (of_client c added)
            ∙ ap (λ z. merged (get z k.v5_rels) (a ∷ of_client c added)) (same→eq a.client_id c h))
    | inr h ↦ rw (get_v5-add a c k e, e, h) refl
  ]
]

get-add_all :
    (added : List Added) (c : String) (k : SubscriptioRelationsCollector)
    → get c (add_all added k).v5_rels ≡ merged (get c k.v5_rels) (of_client c added)
unfolding add_all
get-add_all [] c k = sym (merged_nothing (get c k.v5_rels))
get-add_all (a ∷ added) c k =
    get-add_all added c (add a.topic_filter a.client_id a.opts a.group k) ∙ get-add a c k added

v3_rels-add_all :
    (added : List Added) (k : SubscriptioRelationsCollector)
    → (add_all added k).v3_rels ≡ k.v3_rels ++ v3_relations added
unfolding add_all add
v3_rels-add_all [] k = sym (append-nil k.v3_rels)
v3_rels-add_all (a ∷ added) k = elim (Bool-cases (is_v3 a.opts)) [
  | inl e ↦
      v3_rels-add_all added (add a.topic_filter a.client_id a.opts a.group k)
      ∙ rw e (append_assoc k.v3_rels _ (v3_relations added))
  | inr e ↦ v3_rels-add_all added (add a.topic_filter a.client_id a.opts a.group k) ∙ rw e refl
]

-- A client of version 5 has one relation whatever is added for it: with the topic filter, options
-- and group of the first call, and the subscription identifiers of all calls in their order. Each
-- call for a client of version 3 has a relation of its own, in the order of the calls.
pub add_all-no_rels :
    (added : List Added) (c : String)
    → (get c (add_all added no_rels).v5_rels ≡ merged none (of_client c added))
      × ((add_all added no_rels).v3_rels ≡ v3_relations added)
add_all-no_rels added c = (get-add_all added c no_rels, v3_rels-add_all added no_rels)
