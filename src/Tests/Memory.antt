-- ===== src/Tests/Memory.antt =====
-- A store in memory, which keeps documents as trees and numbers as they are.
use native.Mathlib.Decide.{ℕ_discrete}
use lm_resiliency.Base.{ℕ, ◌+◌, ◌≡◌, ◌≢◌, refl, ap, Bool, [], ◌∷◌, Option, some, none, String}
use lm_resiliency.Base.Int.{ℤ, pos}
use lm_resiliency.Base.Discrete.{String-discrete, ℤ-discrete}
use lm_resiliency.Protocol.Value.{
  Value, Items, Fields, null, boolean, int, float, str, array, object, nil, cons, end, field,
}
use lm_resiliency.PlanStore.Platform.{Key, Platform, Documented}

pub data Tree : Type 0 where
  blank no_value no_items no_fields : Tree
  digits : ℕ → Tree
  truth : Bool → Tree
  whole : ℤ → Tree
  real text_of : String → Tree
  items_of fields_of : Tree → Tree
  item : Tree → Tree → Tree
  member : String → Tree → Tree → Tree

abbrev mutual
  pub tree : Value → Tree
  tree null = no_value
  tree (boolean b) = truth b
  tree (int z) = whole z
  tree (float s) = real s
  tree (str s) = text_of s
  tree (array vs) = items_of (items_tree vs)
  tree (object fs) = fields_of (fields_tree fs)

  pub items_tree : Items → Tree
  items_tree nil = no_items
  items_tree (cons v vs) = item (tree v) (items_tree vs)

  pub fields_tree : Fields → Tree
  fields_tree end = no_fields
  fields_tree (field k v fs) = member k (tree v) (fields_tree fs)

abbrev mutual
  pub value : Tree → Value
  value (truth b) = boolean b
  value (whole z) = int z
  value (real s) = float s
  value (text_of s) = str s
  value (items_of t) = array (items_in t)
  value (fields_of t) = object (fields_in t)
  value _ = null

  pub items_in : Tree → Items
  items_in (item v vs) = cons (value v) (items_in vs)
  items_in _ = nil

  pub fields_in : Tree → Fields
  fields_in (member k v fs) = field k (value v) (fields_in fs)
  fields_in _ = end

mutual
  value-tree : (v : Value) → value (tree v) ≡ v
  value-tree null = refl
  value-tree (boolean b) = refl
  value-tree (int z) = refl
  value-tree (float s) = refl
  value-tree (str s) = refl
  value-tree (array vs) = ap array (items_in-tree vs)
  value-tree (object fs) = ap object (fields_in-tree fs)

  items_in-tree : (vs : Items) → items_in (items_tree vs) ≡ vs
  items_in-tree nil = refl
  items_in-tree (cons v vs) = rw (value-tree v, items_in-tree vs)

  fields_in-tree : (fs : Fields) → fields_in (fields_tree fs) ≡ fs
  fields_in-tree end = refl
  fields_in-tree (field k v fs) = rw (value-tree v, fields_in-tree fs)

pub tree-ne-blank : (v : Value) → tree v ≢ blank
tree-ne-blank null e = cc
tree-ne-blank (boolean b) e = cc
tree-ne-blank (int z) e = cc
tree-ne-blank (float s) e = cc
tree-ne-blank (str s) e = cc
tree-ne-blank (array vs) e = cc
tree-ne-blank (object fs) e = cc

abbrev loads_tree : Tree → Option Value
loads_tree blank = none
loads_tree (digits n) = none
loads_tree t = some (value t)

loads_tree-tree : (v : Value) → loads_tree (tree v) ≡ some v
loads_tree-tree null = refl
loads_tree-tree (boolean b) = refl
loads_tree-tree (int z) = refl
loads_tree-tree (float s) = refl
loads_tree-tree (str s) = refl
loads_tree-tree (array vs) = ap (λ x. some (array x)) (items_in-tree vs)
loads_tree-tree (object fs) = ap (λ x. some (object x)) (fields_in-tree fs)

abbrev int_in : Tree → Option ℤ
int_in (digits n) = some (pos n)
int_in _ = none

unfoldable pub Tree-discrete : Discrete Tree
Tree-discrete = hlevel (ℕ_discrete, String-discrete, ℤ-discrete)

unfoldable pub Key-discrete : Discrete Key
Key-discrete = hlevel (ℕ_discrete, String-discrete)

abbrev pub Memory : Type 0
Memory = Key → Option Tree

abbrev pub pick {ℓ} : {A : Type ℓ} {P : Type 0} → Dec P → A → A → A
pick (yes h) a b = a
pick (no h) a b = b

abbrev pub put : Memory → Key → Tree → Memory
put s k new j = pick (Key-discrete j k) (some new) (s j)

abbrev exchanged : Option Tree → Tree → Tree → Option Tree
exchanged none expected new = pick (Tree-discrete expected blank) (some new) none
exchanged (some old) expected new = pick (Tree-discrete old expected) (some new) (some old)

abbrev pub swap : Memory → Key → Tree → Tree → Memory
swap s k expected new j = pick (Key-discrete j k) (exchanged (s k) expected new) (s j)

abbrev number : Option Tree → ℕ
number (some (digits n)) = n
number _ = 0

abbrev pub memory : Platform
memory = record {
  Bytes = Tree;
  bytes_discrete = Tree-discrete;
  empty = blank;
  size = λ t. 0;
  splitlines = λ t. t ∷ [];
  dumps = tree;
  loads = loads_tree;
  ascii = digits;
  int_of = int_in;
  State = Memory;
  view = λ s. s;
  compare_set = swap;
  set = put;
  append = put;
  add = λ s k n. (put s k (digits (number (s k) + n)), number (s k) + n);
}

pub pick-yes {ℓ} : {A : Type ℓ} {P : Type 0} (t : Dec P) (a b : A) → P → pick t a b ≡ a
pick-yes (yes h) a b p = refl
pick-yes (no h) a b p = absurd (h p)

pick-no {ℓ} : {A : Type ℓ} {P : Type 0} (t : Dec P) (a b : A) → ¬ P → pick t a b ≡ b
pick-no (yes h) a b p = absurd (p h)
pick-no (no h) a b p = refl

here : (s : Memory) (k : Key) (e new : Tree) → swap s k e new k ≡ exchanged (s k) e new
here s k e new = pick-yes (Key-discrete k k) (exchanged (s k) e new) (s k) refl

pub memory-Documented : Documented memory
memory-Documented = record {
  loads-dumps = loads_tree-tree;
  int_of-ascii = λ n. refl;
  dumps-ne-empty = tree-ne-blank;
  creates = λ s k new e.
      rw (here s k blank new, e) (pick-yes (Tree-discrete blank blank) (some new) none refl);
  replaces = λ s k old new e.
      rw (here s k old new, e) (pick-yes (Tree-discrete old old) (some new) (some old) refl);
  keeps = λ s k old expected new e h.
      rw (here s k expected new, e) (pick-no (Tree-discrete old expected) (some new) (some old) h);
  misses = λ s k expected new e h.
      rw (here s k expected new, e) (pick-no (Tree-discrete expected blank) (some new) none h);
  elsewhere =
      λ s k j expected new h. pick-no (Key-discrete j k) (exchanged (s k) expected new) (s j) h;
}
