-- ===== src/Release/Recompile.antt =====
-- Theorems on the compilation of the rules by gocode/cmd/devreleaser/main.go.
use cramc.Prelude.{◌≡◌, sym, ap, ◌∙◌, true, Option, none, some, Bytes}
use cramc.Prelude.Outcome.{GoError, Outcome, ok, err, panic, blocked}
use cramc.Disk.{Disk, put, put_again}
use cramc.Crypto.{Aead}
use cramc.Rules.{RuleEnv, compiled_rules, merge_and_compile2unified_rules, stored}
use cramc.Release.{ReleaseFlags, ReleaseEnv, unified_yar, yrules_dir, release, compiled, removed}

stored-ok :
    (rules : RuleEnv) (dest : Bytes) (out : Outcome Bytes) (c w : Option GoError)
    (disk disk' : Disk)
    → stored rules dest out c w disk ≡ (ok tt, disk')
    → (bin : Bytes) × (disk' ≡ put dest (some bin) disk)
stored-ok rules dest (ok bin) none none disk disk' e =
    (bin, sym (ap (λ (r : Outcome (Unit {0}) × Disk). r.1) e))
stored-ok rules dest (ok bin) none (some g) disk disk' e = cc
stored-ok rules dest (ok bin) (some g) w disk disk' e = cc
stored-ok rules dest (err g) c w disk disk' e = cc
stored-ok rules dest panic c w disk disk' e = cc
stored-ok rules dest blocked c w disk disk' e = cc

compiled_again :
    (aead : Aead) (env : ReleaseEnv) (rules : RuleEnv) (mkdir_error : Option GoError)
    (disk disk' : Disk)
    → env.remove_error ≡ none
    → compiled aead env rules mkdir_error disk ≡ (ok tt, disk')
    → compiled aead env rules mkdir_error disk' ≡ (ok tt, disk')
unfolding merge_and_compile2unified_rules
compiled_again aead env rules (some g) disk disk' r e = cc
compiled_again aead env rules none disk disk' r e =
    let base : Disk = removed aead env env.remove_error disk in
    let (bin, d) =
      stored-ok rules unified_yar (compiled_rules rules yrules_dir base)
        (rules.create_error unified_yar) (rules.write_error unified_yar) base disk' e in
    let same : removed aead env env.remove_error disk' ≡ base = rw d (
      rw r (
        put_again (put unified_yar none disk) unified_yar (some bin) none
        ∙ put_again disk unified_yar none none)) in
    rw same e

-- Compiling again behind a compilation that succeeded gives the same disk, where the previous
-- output can be removed: although that file lies below the directory of the rules and its name
-- ends in ".yar", it is not merged into them.
release_again :
    (aead : Aead) (env : ReleaseEnv) (rules : RuleEnv) (flags : ReleaseFlags) (disk disk' : Disk)
    → flags.compile ≡ true
    → env.remove_error ≡ none
    → release aead env rules flags disk ≡ (ok tt, disk')
    → release aead env rules flags disk' ≡ (ok tt, disk')
unfolding release merge_and_compile2unified_rules
release_again aead env rules flags disk disk' c r e =
    rw c (compiled_again aead env rules env.mkdir_error disk disk' r (rw c at e))
