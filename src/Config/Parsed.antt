-- ===== src/Config/Parsed.antt =====
-- What parse() has read when it ends, and which entity the proxy takes for itself.
use text.Mathlib.Text.{◌==◌}
use text.Mathlib.TextEquality.{eq_iff}
use mathlib.Core.List.{append-nil}
use cezfuzzer.Base.{
  ◌≡◌, ◌≢◌, ◌⊎◌, inl, inr, refl, ap, sym, ◌∙◌, true, false, List, [], ◌∷◌, ◌++◌, none, some,
  Bool-cases, Option-cases,
}
use cezfuzzer.Config.Yaml.{Yaml, each}
use cezfuzzer.Config.Entity.{EntityConfig, read_entity}
use cezfuzzer.Config.Manager.{ConfigurationManager, add_entity, parse_entities, get_fuzzer}

append_snoc : {A : Type 0} (xs : List A) (x : A) (ys : List A) → (xs ++ x ∷ []) ++ ys ≡ xs ++ x ∷ ys
append_snoc [] x ys = refl
append_snoc (z ∷ zs) x ys = ap (λ t. z ∷ t) (append_snoc zs x ys)

-- All entities were read, and stand behind the ones that were there.
pub record IsRead {N : Type 0} (y : Yaml N) (its : List (N × N)) (old new : List EntityConfig)
    : Type 0 where
  pub entities : List EntityConfig
  pub read : each (read_entity y) its ≡ some entities
  pub pushed : new ≡ old ++ entities

-- The entities before one that cannot be read stand behind the ones that were there.
pub record IsCut {N : Type 0} (y : Yaml N) (its : List (N × N)) (old new : List EntityConfig)
    : Type 0 where
  pub before : List (N × N)
  pub bad : N × N
  pub after : List (N × N)
  pub parts : its ≡ before ++ bad ∷ after
  pub read_before : IsRead y before old new
  pub throws : read_entity y bad ≡ none

module _ {N : Type 0} (y : Yaml N) where
  IsRead-cons :
      (it : N × N) (its : List (N × N)) (entity : EntityConfig) (old new : List EntityConfig)
      → read_entity y it ≡ some entity
      → IsRead y its (old ++ entity ∷ []) new
      → IsRead y (it ∷ its) old new
  unfolding each
  IsRead-cons it its entity old new e r = record {
    entities = entity ∷ r.entities;
    read = rw (e, r.read);
    pushed = r.pushed ∙ append_snoc old entity r.entities;
  }

  -- The loop of parse() over the entities does not throw and puts every entity of the file, in
  -- order, behind those there were; or it throws at an entity that cannot be read, and has put
  -- those before it there.
  pub parse_entities_cases :
      (its : List (N × N)) (m : ConfigurationManager)
      → ((parse_entities y its m).1 ≡ true)
          × IsRead y its m.entities (parse_entities y its m).0.entities
        ⊎ ((parse_entities y its m).1 ≡ false)
          × IsCut y its m.entities (parse_entities y its m).0.entities
  unfolding parse_entities add_entity each
  parse_entities_cases [] m =
      inl (refl, record { entities = []; read = refl; pushed = sym (append-nil m.entities) })
  parse_entities_cases (it ∷ its) m = elim (Option-cases (read_entity y it)) [
    | inl e ↦ rw e (
        inr (
          refl,
          record {
            before = [];
            bad = it;
            after = its;
            parts = refl;
            read_before = record {
              entities = [];
              read = refl;
              pushed = sym (append-nil m.entities);
            };
            throws = e;
          },
        ))
    | inr (entity, e) ↦ rw e (elim (parse_entities_cases its (add_entity entity m)) [
      | inl (ok, r) ↦ inl (ok, IsRead-cons it its entity m.entities _ e r)
      | inr (failed, c) ↦ inr (
        failed,
        record {
          before = it ∷ c.before;
          bad = c.bad;
          after = c.after;
          parts = ap (λ t. it ∷ t) c.parts;
          read_before = IsRead-cons it c.before entity m.entities _ e c.read_before;
          throws = c.throws;
        },
      )
    ])
  ]

abbrev pub NoFuzzer : List EntityConfig → Type 0
NoFuzzer [] = Unit {0}
NoFuzzer (entity ∷ entities) = (entity.role ≢ "fuzzer") × NoFuzzer entities

-- getFuzzer gives the first of the entities that have the role fuzzer; if none has it, what its
-- local variable holds.
pub get_fuzzer_cases :
    (unset : EntityConfig) (entities : List EntityConfig)
    → (NoFuzzer entities × (get_fuzzer unset entities ≡ unset))
      ⊎ ((before after : List EntityConfig) × (entities
            ≡ before ++ get_fuzzer unset entities ∷ after)
          × NoFuzzer before
          × ((get_fuzzer unset entities).role ≡ "fuzzer"))
unfolding get_fuzzer
get_fuzzer_cases unset [] = inl (tt, refl)
get_fuzzer_cases unset (entity ∷ entities) = elim (Bool-cases (entity.role == "fuzzer")) [
  | inl same ↦ rw same (inr ([], entities, refl, tt, (eq_iff entity.role "fuzzer").0 same))
  | inr other ↦ rw other (
      let differs : entity.role ≢ "fuzzer" = λ e. cc ((eq_iff entity.role "fuzzer").1 e, other) in
      elim (get_fuzzer_cases unset entities) [
        | inl (no_fuzzer, e) ↦ inl ((differs, no_fuzzer), e)
        | inr (before, after, parts, no_fuzzer, e) ↦
            inr (entity ∷ before, after, ap (λ t. entity ∷ t) parts, (differs, no_fuzzer), e)
      ])
]
