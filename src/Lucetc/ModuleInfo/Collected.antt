-- ===== src/Lucetc/ModuleInfo/Collected.antt =====
-- A module that was collected by declarations: its invariant, and the functions it names.
use lucet.Prelude.{
  ℕ, suc, ◌+◌, ◌<◌, ◌≡◌, ◌↔◌, arith, refl, subst, true, Option, some, List, [], ◌∷◌, ◌++◌, String,
  length, get_elem?, u32_mod, as_u32, sub_u32, is_none, if◌then◌else◌, ok, length-append, inl, inr,
  Option-cases, ok-cases,
}
use text.Mathlib.TextEquality.{eq_iff}
use lucet.Lucetc.Wasm.{Clif, ValidatorOps, Exportable}
use lucet.Lucetc.Wasm
use lucet.Lucetc.ModuleInfo
use lucet.Lucetc.ModuleInfo.{
  ModuleInfo, ModuleValidation, find_index, same_name, insert_body, define_function_body,
  declare_func_import, signature_by_id,
}
use lucet.Lucetc.ModuleInfo.Entries.{get_elem?-push, find_index_found, find_index_absent}
use lucet.Lucetc.ModuleInfo.Declarations.{Declared, begin, next}
use lucet.Lucetc.ModuleInfo.Valid.{SameIff, IsValid, new-IsValid}
use lucet.Lucetc.ModuleInfo.Kept.{declare-IsValid}

module _ (c : Clif) (w : ValidatorOps) where
  -- However the reader declares a module, the state that it reaches is valid: every index of a
  -- signature or function is in range, equal signatures are merged, imported functions are
  -- functions, exactly the declared memories have data initializers, and only declared tables have
  -- elements.
  pub Declared-IsValid :
      (same : SameIff c) (validator : Option w.Validator) (v : ModuleValidation c w)
      → Declared c w validator v
      → IsValid c v.info
  Declared-IsValid same validator _ begin = new-IsValid c
  Declared-IsValid same validator v' (next d v _ before may done) =
      elim (declare-IsValid c w same d v (Declared-IsValid same validator v before) may) [
        | inl ((v'', done', valid), _, _) ↦
            let same_state : v'' ≡ v' = ground arith in
            subst (λ x. IsValid c x.info) same_state valid
        | inr (inl (_, failed)) ↦ absurd (ground arith)
        | inr (inr (_, panics)) ↦ absurd (ground arith)
      ]

  same_name_iff : (a b : String × String) → (same_name a b ≡ true) ↔ (a ≡ b)
  same_name_iff (m, f) (m', f') = ground (arith, eq_iff m m', eq_iff f f')

  -- The imported function that a mention of it names.
  pub record Names (name : String × String) (before after : ModuleInfo c) : Type 0 where
    pub index : ℕ
    pub mapped : get_elem? after.function_mapping (length before.function_mapping) ≡ some index
    pub named : get_elem? after.imported_funcs index ≡ some name
    pub aligned : length after.functions ≡ length after.imported_funcs
    pub shared :
        (j : ℕ) → get_elem? before.imported_funcs j ≡ some name → after.functions ≡ before.functions

  -- The module after an import that succeeded.
  abbrev imported_info : ℕ → String × String → Option ℕ → ModuleInfo c → ModuleInfo c
  imported_info sig name found info =
      let functions =
        if is_none found then info.functions ++ Wasm.new sig ∷ [] else info.functions in
      record info {
        functions = functions;
        imported_funcs =
            if is_none found then info.imported_funcs ++ name ∷ [] else info.imported_funcs;
        function_mapping =
            info.function_mapping
            ++ ModuleInfo.unwrap_or found (sub_u32 (as_u32 (length functions)) 1) ∷ [];
      }

  declare_func_import-info :
      (sig : ℕ) (m field : String) (v v' : ModuleValidation c w)
      → declare_func_import c w sig m (some field) v ≡ ok v'
      → v'.info
        ≡ imported_info sig
            (m, field)
            (find_index (same_name (m, field)) v.info.imported_funcs)
            v.info
  unfolding declare_func_import
  declare_func_import-info sig m field v v' h =
      let after =
        imported_info sig (m, field) (find_index (same_name (m, field)) v.info.imported_funcs)
          v.info in
      elim (ok-cases (signature_by_id c sig after)) [
        | inl (s, e) ↦ ground (arith, e, h)
        | inr bad ↦ absurd (ground (arith, bad, h))
      ]

  -- An import that succeeds, while all functions are imports and there are less than 2^32 - 1,
  -- maps the next function index to the imported function of that module and field; a name that
  -- was imported before adds no function.
  declare_func_import-Names :
      (sig : ℕ) (m field : String) (v v' : ModuleValidation c w)
      → length v.info.functions ≡ length v.info.imported_funcs
      → length v.info.functions + 1 < u32_mod
      → declare_func_import c w sig m (some field) v ≡ ok v'
      → Names (m, field) v.info v'.info
  declare_func_import-Names sig m field v v' aligned small h =
      rw (declare_func_import-info sig m field v v' h)
        (elim (Option-cases (find_index (same_name (m, field)) v.info.imported_funcs)) [
          | inl fresh ↦
              let n = length-append v.info.functions (Wasm.new sig ∷ []) in
              let k = length-append v.info.imported_funcs ((m, field) ∷ []) in
              let absent = find_index_absent (same_name (m, field)) v.info.imported_funcs fresh in
              rw fresh (record {
                index = length v.info.imported_funcs;
                mapped = ground (
                  arith,
                  n,
                  get_elem?-push v.info.function_mapping
                      (sub_u32 (as_u32 (length (v.info.functions ++ Wasm.new sig ∷ []))) 1)
                      (length v.info.function_mapping),
                );
                named = ground (
                  arith,
                  get_elem?-push v.info.imported_funcs (m, field) (length v.info.imported_funcs),
                );
                aligned = omega (arith, n, k);
                shared = λ j at.
                    absurd
                      (ground (arith, absent j (m, field) at, same_name_iff (m, field) (m, field)));
              })
          | inr (k, found) ↦
              let (a, at, same) =
                find_index_found (same_name (m, field)) v.info.imported_funcs k found in
              rw found (record {
                index = k;
                mapped = ground (
                  arith,
                  get_elem?-push v.info.function_mapping k (length v.info.function_mapping),
                );
                named = ground (arith, same_name_iff (m, field) a);
                aligned = aligned;
                shared = λ j at. refl;
              })
        ])

  -- The bodies stand under consecutive keys from `n` on.
  abbrev pub Ordered : ℕ → List (ℕ × c.Body) → Type 0
  Ordered n bodies = (i : ℕ) (e : ℕ × c.Body) → get_elem? bodies i ≡ some e → e.0 ≡ n + i

  insert_body-push :
      (n : ℕ) (bodies : List (ℕ × c.Body)) (key : ℕ) (body : c.Body)
      → Ordered n bodies
      → key ≡ n + length bodies
      → insert_body c w key body bodies ≡ bodies ++ (key, body) ∷ []
  insert_body-push n [] key body all h = refl
  insert_body-push n ((k, b) ∷ bodies) key body all h =
      let first = all 0 (k, b) refl in
      let rest =
        insert_body-push (n + 1) bodies key body (λ i e at. omega (arith, all (suc i) e at))
          (omega arith) in
      ground (arith, rest, first)

  -- A body is added after the others, under the next index behind the imports, whatever the
  -- validator holds.
  pub define_function_body-Ordered :
      (v : ModuleValidation c w) (body : c.Body)
      → Ordered (length v.info.imported_funcs) v.function_bodies
      → ((define_function_body c w body v).function_bodies
          ≡ v.function_bodies
            ++ (length v.info.imported_funcs + length v.function_bodies, body) ∷ [])
        × Ordered (length v.info.imported_funcs) (define_function_body c w body v).function_bodies
  unfolding define_function_body
  define_function_body-Ordered v body all =
      let n = length v.info.imported_funcs in
      let added =
        insert_body-push n v.function_bodies (n + length v.function_bodies) body all refl in
      (
        added,
        rw added (λ i e at. ground (
          arith,
          get_elem?-push v.function_bodies (n + length v.function_bodies, body) i,
          all i e,
        )),
      )
