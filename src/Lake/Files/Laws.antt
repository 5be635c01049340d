-- ===== src/Lake/Files/Laws.antt =====
-- What a cleanup leaves of the working directory.
use eth_project.Prelude.{◌≡◌, refl, Bool, true, false, not, List, [], ◌∷◌, arith, any_of, select}
use eth_project.Lake.Files.{FileName, same_file, File, Local, exists, remove_file, cleanup}

removed :
    (name : FileName) (disk : List (FileName × File))
    → any_of (λ e. same_file e.0 name) (select (λ e. not (same_file e.0 name)) disk) ≡ false
removed name [] = refl
removed name (e ∷ disk) = ground (arith, removed name disk)

still_absent :
    (name other : FileName) (disk : List (FileName × File))
    → any_of (λ e. same_file e.0 name) disk ≡ false
    → any_of (λ e. same_file e.0 name) (select (λ e. not (same_file e.0 other)) disk) ≡ false
still_absent name other [] h = refl
still_absent name other (e ∷ disk) h = ground (arith, still_absent name other disk)

-- A cleanup that can remove its file leaves no file of that name.
pub cleanup-exists : (name : FileName) (s : Local) → exists name (cleanup true name s).1 ≡ false
unfolding exists cleanup remove_file
cleanup-exists name s = removed name s.disk

-- A cleanup creates no file.
pub cleanup_keeps :
    (b : Bool) (name other : FileName) (s : Local)
    → exists name s ≡ false
    → exists name (cleanup b other s).1 ≡ false
unfolding exists cleanup remove_file
cleanup_keeps true name other s h = still_absent name other s.disk h
cleanup_keeps false name other s h = h
