-- ===== src/HandleTable/Destroy.antt =====
-- RTHandleTableDestroy of common/misc/handletable.c.
use virtualbox_drv.Common.{
  ℕ, zero, suc, ◌+◌, ◌-◌, ◌*◌, ◌%◌, ◌^◌, not, List, [], ◌∷◌, ◌++◌, map, length, Status, success,
  invalid_handle, ltb, ◌==◌, if◌then◌else◌,
}
use virtualbox_drv.HandleTable.{Entry, HandleTable, is_free_word, handle_table_magic}

-- One call of the delete callback: the handle, the object and the context.
pub record Delete : Type 0 where
  pub handle : ℕ
  pub obj : ℕ
  pub ctx : ℕ

-- The indices of the entries that hold objects, from index `i` on, of `n` entries.
unfoldable pub used_from : (ℕ → Entry) → (i n : ℕ) → List ℕ
used_from f i zero = []
used_from f i (suc n) =
    if is_free_word (f i).word then used_from f (i + 1) n else i ∷ used_from f (i + 1) n

-- The walk over the second level tables from `i1` on, `n` of them, while entries are left.
unfoldable pub destroy_walk : HandleTable → (n i1 left : ℕ) → List ℕ
destroy_walk t zero i1 left = []
destroy_walk t (suc n) i1 left =
    let here = if ltb (i1 * 2048) t.cur then used_from t.cells (i1 * 2048) 2048 else [] in
    let rest = destroy_walk t n (i1 + 1) ((left + 2 ^ 32 - length here) % 2 ^ 32) in
    if left == 0 then [] else here ++ rest

-- The arguments of the callback; a table without contexts passes NULL for the context.
abbrev pub delete_of : HandleTable → ℕ → Delete
delete_of t i = record {
  handle = (t.base + i) % 2 ^ 32;
  obj = (t.cells i).word;
  ctx = if t.has_context then (t.cells i).ctx else 0;
}

-- RTHandleTableDestroy with a delete callback: its calls, and the status. The table is gone after.
unfoldable pub destroy_table : HandleTable → List Delete × Status
destroy_table t =
    if not (t.magic == handle_table_magic)
    then ([], invalid_handle)
    else (map (delete_of t) (destroy_walk t t.c_level1 0 t.allocated), success)
