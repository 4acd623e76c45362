-- ===== src/Tests/Blocks.antt =====
-- Two thread-control blocks in memory, the first one installed.
use libinger.Base.{
  ◌≡◌, refl, true, none, some, ok, err, Ensures, returns, ◌==◌, if◌then◌else◌, ◌>>=◌,
}
use libinger.Tcb.{
  Block, Memory, Attempt, ThreadControlBlockGuard, shared_ref, mut_ref, put, install,
  install_unguarded, unguarded_parent, uninstall, drop,
}
use libinger.Tcb.Guards.{
  refreshed, Dropped, drop_lem, Installs, install-Installs, uninstall-install,
  uninstall-install_ref,
}

abbrev main_block : Block
main_block = record { tls_ptr = 64; self_ptr = 64; pointer_guard = 77; kernel_thread = 5 }

abbrev function_block : Block
function_block = record { tls_ptr = 96; self_ptr = 96; pointer_guard = 0; kernel_thread = 0 }

abbrev memory : Memory
memory = record {
  fs = 64;
  blocks = λ a. if a == 64 then some main_block else if a == 96 then some function_block else none;
}

abbrev works : Attempt
works = record { get = none; set = none; has_ctype_init = true }

abbrev refused : Attempt
refused = record { get = none; set = some 1; has_ctype_init = true }

drop_lem_example :
    Ensures
      (Dropped memory 96 main_block function_block refl refl refused)
      (drop refused works (some (mut_ref 96)) memory)
drop_lem_example = drop_lem memory 96 main_block function_block refl refl refused works refl

install-Installs_example :
    Ensures
      (Installs memory 96 main_block function_block)
      (install refused works works (some (mut_ref 96)) memory)
install-Installs_example =
    install-Installs memory 96 main_block function_block refused works works refl refl refl refl
      refl

abbrev guard : ThreadControlBlockGuard
guard = record { this = some (mut_ref 96); parent = some (shared_ref 64) }

abbrev entered : Memory
entered = record (put 96 (some (refreshed main_block function_block)) memory) { fs = 96 }

installs : install works works works (some (mut_ref 96)) memory ≡ returns (ok guard, entered)
unfolding install install_unguarded unguarded_parent
installs = refl

uninstall-install_example :
    uninstall works guard entered
    ≡ returns (ok (some (mut_ref 96)), put 96 (some (refreshed main_block function_block)) memory)
uninstall-install_example =
    uninstall-install memory 96 main_block function_block works works works works guard entered refl
      refl refl refl refl refl installs

uninstall-install_ref_example :
    Ensures
      (λ r. (r.0 ≡ ok (some (shared_ref 96))) × (r.1 ≡ record memory { fs = 96 }))
      (install works works works (some (shared_ref 96)) memory >>= λ r. elim r.0 [
        | ok g ↦ uninstall works g r.1
        | err e ↦ returns (err e, r.1)
      ])
uninstall-install_ref_example =
    uninstall-install_ref memory 96 works works works works refl refl refl
