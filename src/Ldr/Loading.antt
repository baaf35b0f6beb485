-- ===== src/Ldr/Loading.antt =====
-- What supdrvIOCtl_LdrLoad does on every branch, and that it installs no entry point outside the
-- image.
use virtualbox_drv.Common.{[], length, ℕ, ◌≡◌, ◌≢◌, true, false, ◌⊎◌, Status, rt_success}
use virtualbox_drv.Ldr.{Image, opened, loaded, Ldr, EntryPoints, no_entry, set_image}
use virtualbox_drv.Ldr.Open.{is_opened}
use virtualbox_drv.Ldr.Load.{Eps, vmmr0, service, LoadReq, is_vinf_success}
use virtualbox_drv.Ldr.Validated.{ReqInside}

-- The VMMR0 entry points after an attempt to install those of the request: those of the request, if
-- none were installed; as before, if the request has none or some were; or none at all, if the ones
-- that would stand are of this image.
abbrev pub Installed : (old : EntryPoints) → Eps → EntryPoints → Type 0
Installed old (vmmr0 e) new = ((old.vmmr0 ≡ 0) × (new ≡ e)) ⊎ ((old.vmmr0 ≢ 0) × (new ≡ old))
Installed old _ new = new ≡ old

abbrev pub EntryAfter : Image → (old : EntryPoints) → Eps → (new : EntryPoints) → Type 0
EntryAfter i old e new =
    Installed old e new
    ⊎ ((e' : EntryPoints) × Installed old e e' × (e'.vmmr0 ≡ i.base) × (new ≡ no_entry))

-- The service handler after a load: that of a service request, else the one before.
abbrev pub Serves : Image → Eps → ℕ → Type 0
Serves i (service h r0 r1 r2) handler = handler ≡ h
Serves i _ handler = handler ≡ i.service

-- The outcomes of a load of the image `i`: refused with nothing changed; failed behind the checks,
-- with the image as after its opening; or loaded with the tables of the request and its service
-- handler, every entry point of the request in the image.
pub data LoadOutcome (l : Ldr) (i : Image) (req : LoadReq) : Ldr × Status → Type 0 where
  refused : {st : Status} → rt_success st ≡ false → LoadOutcome l i req (l, st)
  failed :
      {l' : Ldr} {st : Status}
      → rt_success st ≡ false
      → is_opened i.state ≡ true
      → l'.images
        ≡ set_image i.ptr
            (record i {
              state = opened;
              symbols = [];
              strtab = [];
              cb_strtab = 0;
              module_init = 0;
              module_term = 0;
              service = 0;
            })
            l.images
      → (l'.entry ≡ l.entry) ⊎ EntryAfter i l.entry req.eps l'.entry
      → LoadOutcome l i req (l', st)
  done :
      {l' : Ldr} {st : Status} (handler : ℕ)
      → rt_success st ≡ true
      → is_opened i.state ≡ true
      → ReqInside i req
      → (i.size_tabs ≡ req.size_tabs) × (i.size_bits ≡ req.size_bits)
      → Serves i req.eps handler
      → l'.images
        ≡ set_image i.ptr
            (record i {
              state = loaded;
              symbols = req.symbols;
              strtab = req.strtab;
              cb_strtab = length req.strtab;
              module_init = req.module_init;
              module_term = req.module_term;
              service = handler;
            })
            l.images
      → EntryAfter i l.entry req.eps l'.entry
      → (is_vinf_success st ≡ true → Installed l.entry req.eps l'.entry)
      → LoadOutcome l i req (l', st)
