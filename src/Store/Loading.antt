-- ===== src/Store/Loading.antt =====
-- internal/state/store.go: the outcomes of a load, and the path of the state that it returns.
use go_boxcopy.Base.{
  String, ◌≡◌, refl, Option, none, some, ◌⊎◌, inl, inr, arith, nat_eq, string_eq, Option-cases,
}
use go_boxcopy.Base.Assoc.{lookup}
use go_boxcopy.Base.Errors.{Error}
use go_boxcopy.State.Data.{State, new}
use go_boxcopy.Store.Disk.{temp_path}
use go_boxcopy.Store.File.{StateFile}
use go_boxcopy.Store.Ops.{
  Content, document, garbage, plain, Disk, Faults, try_remove, Loaded, loaded, failed, panicked,
  load_document, load_content, load,
}

pub Loaded-cases :
    (l : Loaded)
    → ((s : State) × (l ≡ loaded s)) ⊎ (((e : Error) × (l ≡ failed e)) ⊎ (l ≡ panicked))
Loaded-cases (loaded s) = inl (s, refl)
Loaded-cases (failed e) = inr (inl (e, refl))
Loaded-cases panicked = inr (inr refl)

-- What is loaded is the state of the path.
load_document_path :
    (path : String) (file : StateFile) (s : State)
    → load_document path file ≡ loaded s
    → s.path ≡ path
unfolding load_document
load_document_path path file s h = ground arith

load_content_path :
    (path : String) (c : Option Content) (s : State)
    → load_content path c ≡ loaded s
    → s.path ≡ path
unfolding load_content new
load_content_path path none s h = ground arith
load_content_path path (some garbage) s h = ground arith
load_content_path path (some (plain text)) s h = ground arith
load_content_path path (some (document file)) s h = load_document_path path file s h

pub load_path :
    (path : String) (faults : Faults) (disk : Disk) (s : State)
    → (load path faults disk).0 ≡ loaded s
    → s.path ≡ path
unfolding load
load_path path faults disk s h = elim (Option-cases faults.read_error) [
  | inl e ↦
      load_content_path path (lookup path (try_remove faults (temp_path path) disk)) s
        (rw (load, e) at h)
  | inr (d, e) ↦ absurd (cc (rw (load, e) at h))
]
