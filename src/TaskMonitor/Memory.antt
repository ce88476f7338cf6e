-- ===== src/TaskMonitor/Memory.antt =====
-- A Redis that keeps its cells in a list: an implementation of the interface that has its laws.
use triggerx_backend.Prelude.{
  ℕ, ◌≡◌, refl, ap, sym, Bool, ◌&&◌, true, false, Option, none, some, List, [], ◌∷◌, inr, if_neg,
  if_pos, ite, if◌then◌else◌, subst, some-eq, ◌∙◌,
}
use triggerx_backend.Prelude.Maps.{contains, get, put, delete, get-put, get-delete}
use triggerx_backend.Prelude.Texts.{Text, text, Text-discrete}
use triggerx_backend.TaskMonitor.Redis.{
  Redis, RedisLaws, Command, Cell, Cell-discrete, Value, message, effect, written, all_written,
  is_due, field, messages,
}

abbrev pub Cells : Type 0
Cells = List (Cell × Value)

abbrev pub write_cell : Option (Cell × Option Value) → Cells → Cells
write_cell none r = r
write_cell (some (c, some v)) r = put Cell-discrete c v r
write_cell (some (c, none)) r = delete Cell-discrete c r

abbrev pub write_all : List Command → Cells → Cells
write_all [] r = r
write_all (m ∷ ms) r = write_all ms (write_cell (effect m) r)

-- The members of the cells of a list that are due in all the cells.
abbrev pub due_members : Text → ℕ → Cells → Cells → List Text
due_members key now all [] = []
due_members key now all (((k, m), v) ∷ r) =
    let rest = due_members key now all r in
    ite (Text-discrete k key) (if is_due now (get Cell-discrete (k, m) all) then m ∷ rest else rest)
      rest

abbrev there : Option Value → Bool
there none = false
there (some v) = true

pub contains-due_members :
    (key : Text) (now : ℕ) (m : Text) (all r : Cells)
    → contains Text-discrete m (due_members key now all r)
      ≡ (there (get Cell-discrete (key, m) r) && is_due now (get Cell-discrete (key, m) all))
unfolding contains get
contains-due_members key now m all [] = refl
contains-due_members key now m all (((k, n), v) ∷ r) =
    step (Text-discrete k key) (contains-due_members key now m all r)
  where
    due : Text → Text → Bool
    due i j = is_due now (get Cell-discrete (i, j) all)

    rest : List Text
    rest = due_members key now all r

    kept :
        (b : Bool)
        → contains Text-discrete m (if b then n ∷ rest else rest) ≡ (
            if b
            then ite (Text-discrete n m) true (contains Text-discrete m rest)
            else contains Text-discrete m rest)
    kept true = refl
    kept false = refl

    skipped :
        (◌≡◌ {A = Cell} (k, n) (key, m) → ⊥)
        → contains Text-discrete m rest ≡ (there (get Cell-discrete (key, m) r) && due key m)
        → contains Text-discrete m rest ≡ (
            there (ite (Cell-discrete (k, n) (key, m)) (some v) (get Cell-discrete (key, m) r))
            && due key m)
    skipped other ih =
        ih
        ∙ ap (λ (o : Option Value). there o && due key m)
            (sym (
              if_neg (Cell-discrete (k, n) (key, m)) other (some v) (get Cell-discrete (key, m) r)))

    found :
        (b : Bool) (t : Bool)
        → contains Text-discrete m rest ≡ (t && b)
        → (if b then true else contains Text-discrete m rest) ≡ b
    found true t ih = refl
    found false true ih = ih
    found false false ih = ih

    passed :
        (b : Bool)
        → (if b then contains Text-discrete m rest else contains Text-discrete m rest)
          ≡ contains Text-discrete m rest
    passed true = refl
    passed false = refl

    step :
        (d : Dec (k ≡ key))
        → contains Text-discrete m rest ≡ (there (get Cell-discrete (key, m) r) && due key m)
        → contains Text-discrete m (ite d (if due k n then n ∷ rest else rest) rest) ≡ (
            there (ite (Cell-discrete (k, n) (key, m)) (some v) (get Cell-discrete (key, m) r))
            && due key m)
    step (no x) ih = skipped (λ q. x (ap (λ (c : Cell). c.0) q)) ih
    step (yes e) ih = elim (Text-discrete n m) [
      | yes f ↦
          kept (due k n)
          ∙ ap (λ (x : Bool). if due k n then x else contains Text-discrete m rest)
              (if_pos (Text-discrete n m) f true (contains Text-discrete m rest))
          ∙ ap (λ (x : Bool). if x then true else contains Text-discrete m rest)
              (ap (λ (i : Text). due i n) e ∙ ap (due key) f)
          ∙ found (due key m) (there (get Cell-discrete (key, m) r)) ih
          ∙ ap (λ (o : Option Value). there o && due key m)
              (sym (
                if_pos (Cell-discrete (k, n) (key, m)) (λ i. (e i, f i)) (some v)
                  (get Cell-discrete (key, m) r)))
      | no x ↦
          kept (due k n)
          ∙ ap (λ (y : Bool). if due k n then y else contains Text-discrete m rest)
              (if_neg (Text-discrete n m) x true (contains Text-discrete m rest))
          ∙ passed (due k n)
          ∙ skipped (λ q. x (ap (λ (c : Cell). c.1) q)) ih
    ]

pub there-is_due : (now : ℕ) (o : Option Value) → (there o && is_due now o) ≡ is_due now o
there-is_due now none = refl
there-is_due now (some v) = refl

abbrev pub memory : Redis Cells
memory = record {
  send = λ r m. (write_cell (effect m) r, true);
  pipeline = λ r ms. (write_all ms r, true);
  xadd = λ r stream json.
      (put Cell-discrete (stream, text "2-0") (message (some json)) r, some (text "2-0"));
  zrange = λ r key now. some (due_members key now r r);
  hget = λ r key f. some (field (get Cell-discrete (key, f) r));
  xrange = λ r stream id. some (messages (get Cell-discrete (stream, id) r));
  xrange_all = λ r stream. some (some (text "t") ∷ []);
}

pub get-write_cell :
    (e : Option (Cell × Option Value)) (x : Cell) (r : Cells)
    → get Cell-discrete x (write_cell e r) ≡ written e x (get Cell-discrete x r)
get-write_cell none x r = refl
get-write_cell (some (c, some v)) x r = get-put Cell-discrete c x v r
get-write_cell (some (c, none)) x r = get-delete Cell-discrete c x r

pub get-write_all :
    (ms : List Command) (x : Cell) (r : Cells)
    → get Cell-discrete x (write_all ms r) ≡ all_written ms x (get Cell-discrete x r)
get-write_all [] x r = refl
get-write_all (m ∷ ms) x r =
    rw (get-write_all ms x (write_cell (effect m) r), get-write_cell (effect m) x r) refl

abbrev pub memory_laws : RedisLaws memory
memory_laws = record {
  look = λ r x. get Cell-discrete x r;
  sent = λ r m x e. get-write_cell (effect m) x r;
  not_sent = λ r m x e. inr (get-write_cell (effect m) x r);
  piped = λ r ms x e. get-write_all ms x r;
  added = λ r stream json id e.
      subst
        (λ (i : Text).
          get Cell-discrete (stream, i)
            (put Cell-discrete (stream, text "2-0") (message (some json)) r)
          ≡ some (message (some json)))
        (some-eq e)
        (get-put Cell-discrete (stream, text "2-0") (stream, text "2-0") (message (some json)) r
          ∙ if_pos (Cell-discrete (stream, text "2-0") (stream, text "2-0")) refl
              (some (message (some json))) (get Cell-discrete (stream, text "2-0") r));
  added_elsewhere = λ r stream json key m n.
      get-put Cell-discrete (stream, text "2-0") (key, m) (message (some json)) r
      ∙ if_neg (Cell-discrete (stream, text "2-0") (key, m)) (λ q. n (ap (λ (c : Cell). c.0) q))
          (some (message (some json))) (get Cell-discrete (key, m) r);
  zrange_read = λ r key now ms m e.
      ap (contains Text-discrete m) (sym (some-eq e))
      ∙ contains-due_members key now m r r
      ∙ there-is_due now (get Cell-discrete (key, m) r);
  field_read = λ r key f o e. some-eq e;
  message_read = λ r stream id ms e. some-eq e;
}
