-- ===== src/Factory.antt =====
-- The component factories of vboxdrv/SUPDrv.c: SUPR0ComponentRegisterFactory,
-- SUPR0ComponentDeregisterFactory, SUPR0ComponentQueryFactory and the factory part of
-- supdrvCleanupSession.
pub mod Registration
pub mod Query
mod Tests
use virtualbox_drv.Common.{
  ℕ, zero, suc, ◌-◌, ◌^◌, Bool, true, false, not, ◌&&◌, Option, none, some, List, [], ◌∷◌, Status,
  success, invalid_parameter, invalid_pointer, access_denied, no_memory, already_exists, not_found,
  component_not_found, interface_not_supported, rt_success, ◌==◌, if◌then◌else◌,
}
use virtualbox_drv.Obj.{bird_inv}

-- SUPDRVFACTORY: the 56 bytes of the name, and whether the query callback is set.
pub record Factory : Type 0 where
  pub name : List ℕ
  pub has_query : Bool

-- SUPDRVFACTORYREG; `factory` and `session` are addresses. The list of registrations is the chain
-- pComponentFactoryHead.
pub record FactoryReg : Type 0 where
  pub factory : ℕ
  pub session : ℕ
  pub cch_name : ℕ

-- What the functions read of the calling session.
pub record Caller : Type 0 where
  pub ptr : ℕ
  pub cookie : ℕ
  pub r0_process : ℕ

abbrev pub nil_r0_process : ℕ
nil_r0_process = 2 ^ 64 - 1

abbrev pub is_caller_valid : Caller → Bool
is_caller_valid c = not (c.ptr == 0) && c.cookie == bird_inv

-- RTStrEnd: the index of the terminator among the first bytes.
unfoldable pub str_end : List ℕ → (max : ℕ) → Option ℕ
str_end xs zero = none
str_end [] (suc n) = none
str_end (x ∷ xs) (suc n) =
    let rest = str_end xs n in
    if x == 0 then some 0 else (elim rest [ none ↦ none | some i ↦ some (suc i) ])

-- The walk to the tail of the chain, which stops at a registration of the same factory.
unfoldable pub append_reg : FactoryReg → List FactoryReg → Option (List FactoryReg)
append_reg n [] = some (n ∷ [])
append_reg n (r ∷ rs) =
    let rest = append_reg n rs in
    if r.factory == n.factory then none else (elim rest [ none ↦ none | some ss ↦ some (r ∷ ss) ])

-- The part of the registration behind the validation, with the length of the name.
unfoldable pub link_factory :
    (has_memory : Bool) (lock : Status)
    → Caller
    → (factory cch : ℕ) → List FactoryReg
    → List FactoryReg × Status
link_factory has_memory lock c factory cch rs =
    if not has_memory
    then (rs, no_memory)
    else if not (rt_success lock)
    then (rs, lock)
    else (elim (append_reg (record { factory = factory; session = c.ptr; cch_name = cch }) rs) [
      | some ss ↦ (ss, success)
      | none ↦ (rs, already_exists)
    ])

-- SUPR0ComponentRegisterFactory. `has_memory` is the outcome of the allocation, `lock` that of the
-- request of the mutex, and `facs` gives the factory at an address.
unfoldable pub register_factory :
    (has_memory : Bool) (lock : Status) (facs : ℕ → Factory)
    → Caller
    → (factory : ℕ) → List FactoryReg
    → List FactoryReg × Status
register_factory has_memory lock facs c factory rs =
    if not (is_caller_valid c)
    then (rs, invalid_parameter)
    else if not (c.r0_process == nil_r0_process)
    then (rs, access_denied)
    else if factory == 0
    then (rs, invalid_pointer)
    else if not (facs factory).has_query
    then (rs, invalid_pointer)
    else (elim (str_end (facs factory).name 56) [
      | none ↦ (rs, invalid_parameter)
      | some cch ↦ link_factory has_memory lock c factory cch rs
    ])

-- The search for the registration of a factory, and its unlinking.
unfoldable pub remove_reg : (factory : ℕ) → List FactoryReg → Option (List FactoryReg)
remove_reg factory [] = none
remove_reg factory (r ∷ rs) =
    let rest = remove_reg factory rs in
    if r.factory == factory then some rs else (elim rest [ none ↦ none | some ss ↦ some (r ∷ ss) ])

-- SUPR0ComponentDeregisterFactory.
unfoldable pub deregister_factory :
    (lock : Status) → Caller → (factory : ℕ) → List FactoryReg → List FactoryReg × Status
deregister_factory lock c factory rs =
    if not (is_caller_valid c)
    then (rs, invalid_parameter)
    else if not (c.r0_process == nil_r0_process)
    then (rs, access_denied)
    else if factory == 0
    then (rs, invalid_pointer)
    else if not (rt_success lock)
    then (rs, lock)
    else (elim (remove_reg factory rs) [ some ss ↦ (ss, success) | none ↦ (rs, not_found) ])

-- The factory part of supdrvCleanupSession.
unfoldable pub cleanup_factories : (session : ℕ) → List FactoryReg → List FactoryReg
cleanup_factories s [] = []
cleanup_factories s (r ∷ rs) =
    if r.session == s then cleanup_factories s rs else r ∷ cleanup_factories s rs

-- memcmp on the first bytes of two strings of at least that length.
unfoldable pub same_bytes : ℕ → List ℕ → List ℕ → Bool
same_bytes zero xs ys = true
same_bytes (suc n) (x ∷ xs) (y ∷ ys) = x == y && same_bytes n xs ys
same_bytes (suc n) [] ys = false
same_bytes (suc n) (x ∷ xs) [] = false

-- Does a registration have the name that is asked for?
abbrev pub has_name : (ℕ → Factory) → (name : List ℕ) (cch : ℕ) → FactoryReg → Bool
has_name facs name cch r = r.cch_name == cch && same_bytes cch (facs r.factory).name name

-- The walk over the factories of a name; `rc` is the status so far. `answer` gives what the callback
-- of a factory returns, 0 for NULL.
unfoldable pub query_loop :
    (facs : ℕ → Factory) (answer : ℕ → ℕ) (name : List ℕ) (cch : ℕ)
    → List FactoryReg
    → Status
    → Status × ℕ
query_loop facs answer name cch [] rc = (rc, 0)
query_loop facs answer name cch (r ∷ rs) rc =
    let skipped = query_loop facs answer name cch rs rc in
    let unsupported = query_loop facs answer name cch rs interface_not_supported in
    if has_name facs name cch r
    then (if answer r.factory == 0 then unsupported else (success, answer r.factory))
    else skipped

-- SUPR0ComponentQueryFactory; `none` is an invalid pointer, and `answer` takes the factory, the
-- session and the UUID. The result is the status and the interface pointer.
unfoldable pub query_factory :
    (lock : Status) (facs : ℕ → Factory) (answer : ℕ → ℕ → List ℕ → ℕ)
    → Caller
    → (name uuid : Option (List ℕ)) (out_valid : Bool) → List FactoryReg
    → Status × ℕ
query_factory lock facs answer c none uuid out_valid rs =
    if not (is_caller_valid c) then (invalid_parameter, 0) else (invalid_pointer, 0)
query_factory lock facs answer c (some name) uuid out_valid rs =
    if not (is_caller_valid c) then (invalid_parameter, 0) else (elim (str_end name 56) [
      | none ↦ (invalid_parameter, 0)
      | some cch ↦ (elim uuid [
        | none ↦ (invalid_pointer, 0)
        | some id ↦ (elim (str_end id 37) [
          | none ↦ (invalid_parameter, 0)
          | some _ ↦
              if not out_valid
              then (invalid_pointer, 0)
              else if not (rt_success lock)
              then (lock, 0)
              else query_loop facs (λ f. answer f c.ptr id) name cch rs component_not_found
        ])
      ])
    ])
