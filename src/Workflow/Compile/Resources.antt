-- ===== src/Workflow/Compile/Resources.antt =====
-- internal/workflow/definition.go: the resources that `normalizeResources` gives.
use remote_code.Prelude.{
  suc, ◌≤◌, ◌≡◌, refl, sym, ap, subst, ◌∙◌, true, false, String, List, [], ◌∷◌, length, map, str_eq,
  has, IsDistinct, has-sort_strings, map-sort_by, IsAscending, sort_strings-IsAscending, Accepts,
  Accepts-accept, Accepts-reject_if, Accepts-and_then, Accepts-or_reject, arith,
  sort_strings-IsDistinct, length-sort_by, has_apart, has_first, or_right,
}
use remote_code.Workflow.Definition.{ResourceClaim}
use remote_code.Workflow.Sources.{ResourceSource, max_resources_per_node}
use remote_code.Workflow.Compile.{read_resources, normalize_resources, key_of}

-- The keys of some claims.
abbrev pub claim_keys : List ResourceClaim → List String
claim_keys claims = map key_of claims

abbrev pub source_keys : List ResourceSource → List String
source_keys resources = map (λ (r : ResourceSource). r.source_key) resources

-- At most 32 claims, one for each of the resources, with distinct keys, in the order of the keys.
pub record IsNormal (resources : List ResourceSource) (claims : List ResourceClaim) : Type 0 where
  pub few : length claims ≤ max_resources_per_node
  pub of_sources : (k : String) → has k (claim_keys claims) ≡ has k (source_keys resources)
  pub once : IsDistinct (claim_keys claims)
  pub ascending : IsAscending (claim_keys claims)

-- What the loop gives.
record IsRead (seen : List String) (resources : List ResourceSource) (claims : List ResourceClaim)
    : Type 0 where
  same_keys : claim_keys claims ≡ source_keys resources
  same_length : length claims ≡ length resources
  distinct : IsDistinct (claim_keys claims)
  fresh : (k : String) → has k seen ≡ true → has k (claim_keys claims) ≡ false

read_resources-IsRead :
    (seen : List String) (resources : List ResourceSource)
    → Accepts (IsRead seen resources) (read_resources seen resources)
unfolding read_resources
read_resources-IsRead seen [] =
    Accepts-accept _ (IsRead seen []) []
      (record { same_keys = refl; same_length = refl; distinct = tt; fresh = λ k h. refl })
read_resources-IsRead seen (r ∷ rs) =
    let P = IsRead seen (r ∷ rs) in
    Accepts-reject_if P _ _ _ λ named.
      Accepts-and_then (λ mode. Unit {0}) P _ _ (Accepts-or_reject _ _ _ λ mode e. tt)
        λ mode u. Accepts-reject_if P _ _ _ λ new.
          Accepts-and_then (IsRead (r.source_key ∷ seen) rs) P
            (read_resources (r.source_key ∷ seen) rs) _
            (read_resources-IsRead (r.source_key ∷ seen) rs)
            λ claims h. Accepts-accept _ P _ (record {
              same_keys = ap (λ l. r.source_key ∷ l) h.same_keys;
              same_length = ap suc h.same_length;
              distinct = (h.fresh r.source_key (has_first r.source_key seen), h.distinct);
              fresh = λ k there. ground (
                arith,
                h.fresh k (or_right (str_eq r.source_key k) (has k seen) there),
                has_apart r.source_key k seen new there,
              );
            })

pub normalize_resources-IsNormal :
    (resources : List ResourceSource) → Accepts (IsNormal resources) (normalize_resources resources)
unfolding normalize_resources
normalize_resources-IsNormal resources = Accepts-reject_if (IsNormal resources) _ _ _ λ few.
    Accepts-and_then (IsRead [] resources) (IsNormal resources) (read_resources [] resources) _
      (read_resources-IsRead [] resources)
      λ claims h.
        let listed = map-sort_by key_of claims in
        Accepts-accept _ (IsNormal resources) _ (record {
          few = ground (arith, few, length-sort_by key_of claims, h.same_length);
          of_sources = λ k.
              ap (λ l. has k l) listed
              ∙ has-sort_strings k (claim_keys claims)
              ∙ ap (λ l. has k l) h.same_keys;
          once =
              subst IsDistinct (sym listed)
                (sort_strings-IsDistinct (claim_keys claims) h.distinct);
          ascending = subst IsAscending (sym listed) (sort_strings-IsAscending (claim_keys claims));
        })
