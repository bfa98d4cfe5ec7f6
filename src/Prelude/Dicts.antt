-- ===== src/Prelude/Dicts.antt =====
-- A Go map with string keys, as an association list: one entry at most is read for each key.
use mathlib.Core.Path.{◌≡◌, refl, sym, ap, subst, ◌∙◌}
use mathlib.Core.Logic.{◌≢◌, ite}
use mathlib.Core.Option.{Option, none, some}
use mathlib.Core.List.{List, [], ◌∷◌}
use native.Mathlib.Omega.{arith}
use srv.Prelude.Texts.{Text, text_discrete}

abbrev pub Dict {ℓ} : Type ℓ → Type ℓ
Dict V = List (Text × V)

module _ {ℓ} {V : Type ℓ} where
  unfoldable pub lookup : Text → Dict V → Option V
  lookup k [] = none
  lookup k ((j, v) ∷ m) = ite (text_discrete j k) (some v) (lookup k m)

  -- m[k] = v
  unfoldable pub insert : Text → V → Dict V → Dict V
  insert k v [] = (k, v) ∷ []
  insert k v ((j, u) ∷ m) = ite (text_discrete j k) ((k, v) ∷ m) ((j, u) ∷ insert k v m)

  -- delete(m, k)
  unfoldable pub delete : Text → Dict V → Dict V
  delete k [] = []
  delete k ((j, u) ∷ m) = let rest = delete k m in ite (text_discrete j k) rest ((j, u) ∷ rest)

  pub lookup-insert :
      (k j : Text) (v : V) (m : Dict V)
      → lookup j (insert k v m) ≡ ite (text_discrete k j) (some v) (lookup j m)
  unfolding lookup insert
  lookup-insert k j v [] = refl
  lookup-insert k j v ((i, u) ∷ m) = ground (arith, lookup-insert k j v m)

  pub lookup-delete :
      (k j : Text) (m : Dict V) → lookup j (delete k m) ≡ ite (text_discrete k j) none (lookup j m)
  unfolding lookup delete
  lookup-delete k j [] = ground arith
  lookup-delete k j ((i, u) ∷ m) = ground (arith, lookup-delete k j m)

  pub lookup-insert_self : (k : Text) (v : V) (m : Dict V) → lookup k (insert k v m) ≡ some v
  lookup-insert_self k v m = ground (arith, lookup-insert k k v m)

  pub lookup-insert_ne :
      (k j : Text) (v : V) (m : Dict V) → k ≢ j → lookup j (insert k v m) ≡ lookup j m
  lookup-insert_ne k j v m n = ground (arith, lookup-insert k j v m)

  pub lookup-delete_self : (k : Text) (m : Dict V) → lookup k (delete k m) ≡ none
  lookup-delete_self k m = ground (arith, lookup-delete k k m)

  pub lookup-delete_ne : (k j : Text) (m : Dict V) → k ≢ j → lookup j (delete k m) ≡ lookup j m
  lookup-delete_ne k j m n = ground (arith, lookup-delete k j m)

  -- Every entry that can be read has the property.
  pub record Each (P : Text → V → Type 0) (m : Dict V) : Type ℓ where
    pub at : (k : Text) (v : V) → lookup k m ≡ some v → P k v

module _ {V : Type 0} {P : Text → V → Type 0} where
  pub Each-insert : (k : Text) (v : V) (m : Dict V) → P k v → Each P m → Each P (insert k v m)
  Each-insert k v m h e = record {
    at = λ j u found. elim (text_discrete k j) [
      | yes same ↦
          let there : lookup k (insert k v m) ≡ some u =
            ap (λ x. lookup x (insert k v m)) same ∙ found in
          let value : v ≡ u = cc (lookup-insert_self k v m) in
          subst (λ x. P x u) same (subst (P k) value h)
      | no other ↦ e.at j u (sym (lookup-insert_ne k j v m other) ∙ found)
    ];
  }

  pub Each-delete : (k : Text) (m : Dict V) → Each P m → Each P (delete k m)
  Each-delete k m e = record {
    at = λ j u found. elim (text_discrete k j) [
      | yes same ↦
          cc (sym (lookup-delete_self k m) ∙ (ap (λ x. lookup x (delete k m)) same ∙ found))
      | no other ↦ e.at j u (sym (lookup-delete_ne k j m other) ∙ found)
    ];
  }
