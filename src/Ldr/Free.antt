-- ===== src/Ldr/Free.antt =====
-- supdrvLdrFree, supdrvIOCtl_LdrFree and the image part of supdrvCleanupSession of vboxdrv/SUPDrv.c.
use virtualbox_drv.Common.{
  ℕ, ◌+◌, ◌-◌, Bool, true, false, not, ◌&&◌, ◌||◌, Option, none, some, List, [], ◌∷◌, Status,
  success, invalid_handle, ◌==◌, if◌then◌else◌, ◌>>=◌, leb, ltb, dec32, contains, ◌^◌, ◌%◌,
}
use virtualbox_drv.Obj.{Obj, Usage, DevExt, find_session}
use virtualbox_drv.Ldr.{
  Image, ImageState, opened, loaded, freed, Ldr, LdrUsage, get_image, set_image, remove_image,
  find_usage, is_inside, unset_vmmr0_eps, put_session,
}

-- Does the destructor of an object lie in the image?
abbrev pub has_destructor_in : Image → Option Obj → Bool
has_destructor_in i none = false
has_destructor_in i (some o) = is_inside i.base i.size_bits o.destructor

-- The walk over a chain of objects.
unfoldable pub any_destructor_in : Image → DevExt → List ℕ → Bool
any_destructor_in i w [] = false
any_destructor_in i w (p ∷ ps) = has_destructor_in i (w.heap p) || any_destructor_in i w ps

unfoldable pub used_objects : List Usage → List ℕ
used_objects [] = []
used_objects (u ∷ us) = u.obj ∷ used_objects us

unfoldable pub session_objects : DevExt → (s : ℕ) → List ℕ
session_objects w s = elim (find_session s w.sessions) [ none ↦ [] | some x ↦ used_objects x.usage ]

-- The destructors that lie in an image are cleared before its code goes away.
unfoldable pub clear_destructors : Image → DevExt → DevExt
clear_destructors i w = record w {
  heap = λ p.
      if contains w.objs p && has_destructor_in i (w.heap p)
      then (elim (w.heap p) [ none ↦ none | some o ↦ some (record o { destructor = 0 }) ])
      else w.heap p;
}

abbrev pub is_loaded : ImageState → Bool
is_loaded loaded = true
is_loaded opened = false
is_loaded freed = false

-- supdrvLdrFree.
unfoldable pub free_image : Ldr → Image → Ldr
free_image l i = record l {
  images = remove_image i.ptr l.images;
  entry = if l.entry.vmmr0 == i.base then unset_vmmr0_eps l.entry else l.entry;
  dev = clear_destructors i l.dev;
  terms =
      if not (i.module_term == 0) && is_loaded i.state then i.module_term ∷ l.terms else l.terms;
}

-- The first record of an image: its count, the list without it, the list with the count lowered.
unfoldable pub usage_count : ℕ → List LdrUsage → ℕ
usage_count p [] = 0
usage_count p (u ∷ us) = if u.image == p then u.count else usage_count p us

unfoldable pub remove_usage : ℕ → List LdrUsage → List LdrUsage
remove_usage p [] = []
remove_usage p (u ∷ us) = if u.image == p then us else u ∷ remove_usage p us

unfoldable pub lower_usage : ℕ → List LdrUsage → List LdrUsage
lower_usage p [] = []
lower_usage p (u ∷ us) =
    if u.image == p then record u { count = dec32 u.count } ∷ us else u ∷ lower_usage p us

-- One reference to the image less.
abbrev pub deref_image : Ldr → Image → Ldr
deref_image l i = record l {
  images = set_image i.ptr (record i { usage = dec32 i.usage }) l.images;
}

-- Would the image's code be needed by destructors of objects? All objects count if the image would
-- be freed, else those that the session refers to.
unfoldable pub has_dangling : Ldr → (s : ℕ) → Image → Bool
has_dangling l s i =
    any_destructor_in i l.dev (if leb i.usage 1 then l.dev.objs else session_objects l.dev s)

-- supdrvIOCtl_LdrFree behind the search for the image.
unfoldable pub free_found : Ldr → (s : ℕ) → Image → Ldr
free_found l s i =
    if leb i.usage 1 || leb (usage_count i.ptr (l.usage s)) 1
    then (if has_dangling l s i
        then l
        else (let m = put_session s (remove_usage i.ptr (l.usage s)) l in
            if leb i.usage 1 then free_image m i else deref_image m i))
    else put_session s (lower_usage i.ptr (l.usage s)) (deref_image l i)

-- supdrvIOCtl_LdrFree.
unfoldable pub ldr_free : Ldr → (s base : ℕ) → Option (Ldr × Status)
ldr_free l s base = elim (find_usage base l.images (l.usage s)) [
  | none ↦ none
  | some none ↦ some (l, invalid_handle)
  | some (some i) ↦ some (free_found l s i, success)
]

-- One round of the image part of supdrvCleanupSession.
unfoldable pub cleanup_image : Ldr → LdrUsage → Option Ldr
cleanup_image l u = elim (get_image u.image l.images) [
  | none ↦ none
  | some i ↦ some (
      if ltb u.count i.usage
      then record l {
        images =
            set_image i.ptr (record i { usage = (i.usage + 2 ^ 32 - u.count) % 2 ^ 32 }) l.images;
      }
      else free_image l i)
]

unfoldable pub cleanup_images : List LdrUsage → Ldr → Option Ldr
cleanup_images [] l = some l
cleanup_images (u ∷ us) l = do m ← cleanup_image l u; cleanup_images us m

unfoldable pub cleanup_session_images : Ldr → (s : ℕ) → Option Ldr
cleanup_session_images l s = cleanup_images (l.usage s) (put_session s [] l)
