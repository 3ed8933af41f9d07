-- ===== src/Release/Handover.antt =====
-- Theorems on the conversions of gocode/cmd/devreleaser/main.go, and on its output as the agent
-- (gocode/cmd/aioagent/main.go) loads it.
use cramc.Prelude.{
  ◌≡◌, refl, ap, ◌∙◌, ◌≢◌, true, false, not, ◌&&◌, ◌||◌, none, some, [], arith, length, Bytes,
  text_ne,
}
use cramc.Prelude.Outcome.{GoError, Outcome, ok, err, panic}
use cramc.Common.{CramcCleanupDb}
use cramc.Disk.{Disk, put, put_same, put_again}
use cramc.Crypto.{Aead, IsAead, xchacha20_decrypt}
use cramc.Crypto.Password.{hex_encryption_password, IsHexDecoder, password_key}
use cramc.Crypto.RoundTrip.{xchacha20_decrypt-encrypt}
use cramc.Rules.{RuleEnv}
use cramc.Release.{
  ReleaseFlags, ReleaseEnv, check_file_logical_exists, converted, convert, out_written, release,
}
use cramc.Agent.{AgentFlags, AgentEnv, read_encrypted, load_database, database_path, read_file}

-- Exactly one direction is asked for, and no call of the operating system fails.
pub record Converts (env : ReleaseEnv) (flags : ReleaseFlags) : Type 0 where
  pub not_compile : flags.compile ≡ false
  pub one_direction : flags.dec ≡ not flags.enc
  pub named : flags.in_file ≢ []
  pub examines : env.stat_error flags.in_file ≡ none
  pub reads : env.read_error flags.in_file ≡ none
  pub creates : env.create_error flags.out_file ≡ none
  pub writes : env.write_error flags.out_file ≡ none

module _ (aead : Aead) (env : ReleaseEnv) (rules : RuleEnv) (flags : ReleaseFlags) (disk : Disk)
    (in_data : Bytes) (c : Converts env flags) (there : disk flags.in_file ≡ some in_data) where
  one_way : (flags.dec && flags.enc ≡ false) × (flags.dec || flags.enc ≡ true)
  one_way = ground (arith, c.one_direction)

  release-out_written :
      release aead env rules flags disk
      ≡ out_written aead env flags.out_file
          (converted aead env flags in_data)
          none
          (put flags.out_file (some []) disk)
  unfolding release convert check_file_logical_exists
  release-out_written =
      let (clash, one) = one_way in
      rw c.not_compile (
        rw clash (
          rw one (
            rw (text_ne flags.in_file [] c.named)
              (rw there (rw c.examines (rw c.reads (rw c.creates (rw c.writes))))))))

  -- What the output is, from the result of the conversion.
  release-ok :
      (out : Bytes)
      → converted aead env flags in_data ≡ ok out
      → release aead env rules flags disk ≡ (ok tt, put flags.out_file (some out) disk)
  release-ok out e =
      release-out_written
      ∙ rw e (ap (λ (d : Disk). (ok tt, d)) (put_again disk flags.out_file (some []) (some out)))

-- A conversion that fails, as the decryption of a file that was not encrypted with the password
-- does, leaves the output empty; where it is the input too, the data is lost.
release_fails :
    (aead : Aead) (env : ReleaseEnv) (rules : RuleEnv) (flags : ReleaseFlags) (disk : Disk)
    (in_data : Bytes) (g : GoError)
    → Converts env flags
    → disk flags.in_file ≡ some in_data
    → flags.out_file ≡ flags.in_file
    → converted aead env flags in_data ≡ err g
    → let (r, disk') = release aead env rules flags disk in
      (r ≡ panic) × (disk' flags.in_file ≡ some [])
release_fails aead env rules flags disk in_data g c there same e =
    rw (release-out_written aead env rules flags disk in_data c there)
      (rw e (refl, rw same (put_same disk flags.in_file (some []))))

-- No direction, or what is not there.
pub record Encrypts (env : ReleaseEnv) (flags : ReleaseFlags) (iv : Bytes) : Type 0 where
  pub enc : flags.enc ≡ true
  pub rand : env.rand ≡ ok iv
  pub nonce : length iv ≡ 24

-- The encrypting run, with the container that it stores.
encrypted :
    (aead : Aead) (env : ReleaseEnv) (rules : RuleEnv) (flags : ReleaseFlags) (disk : Disk)
    (in_data iv spare : Bytes)
    → IsAead aead
    → IsHexDecoder env.decode_string
    → Converts env flags
    → disk flags.in_file ≡ some in_data
    → Encrypts env flags iv
    → (key : Bytes) × (env.decode_string hex_encryption_password ≡ ok key)
      × ((ct : Bytes) × (release aead env rules flags disk
            ≡ (ok tt, put flags.out_file (some ct) disk))
          × (xchacha20_decrypt aead key (record { bytes = ct; spare = spare }) ≡ ok in_data))
unfolding converted
encrypted aead env rules flags disk in_data iv spare laws hex c there x =
    let (key, decoded, k) = password_key env.decode_string hex in
    let (ct, e, n, d) = xchacha20_decrypt-encrypt aead key iv in_data spare laws k x.nonce in
    (
      key,
      decoded,
      (
        ct,
        release-ok aead env rules flags disk in_data c there ct
            (rw decoded (rw x.enc (rw x.rand e))),
        d,
      ),
    )

-- A file that the tool encrypts and then decrypts, from the output of the first run, is what it was
-- before, whether or not the three paths are different.
release_round_trip :
    (aead : Aead) (env : ReleaseEnv) (rules : RuleEnv) (flags back : ReleaseFlags) (disk : Disk)
    (in_data iv : Bytes)
    → IsAead aead
    → IsHexDecoder env.decode_string
    → Encrypts env flags iv
    → Converts env flags
    → disk flags.in_file ≡ some in_data
    → Converts env back
    → back.enc ≡ false
    → back.in_file ≡ flags.out_file
    → let (r, disk') = release aead env rules flags disk in
      let (r', disk'') = release aead env rules back disk' in
      (r ≡ ok tt) × (r' ≡ ok tt) × (disk'' back.out_file ≡ some in_data)
unfolding converted
release_round_trip aead env rules flags back disk in_data iv laws hex x c there c' dec same =
    let (key, decoded, (ct, e, d)) =
      encrypted aead env rules flags disk in_data iv env.spare laws hex c there x in
    let stored = put flags.out_file (some ct) disk in
    let e' =
      release-ok aead env rules back stored ct c' (rw same (put_same disk flags.out_file (some ct)))
        in_data (rw decoded (rw dec d)) in
    rw e (rw e' (refl, refl, put_same stored back.out_file (some in_data)))

-- What the tool encrypts beside the agent is what the agent reads.
read_encrypted-release :
    (aead : Aead) (env : ReleaseEnv) (rules : RuleEnv) (flags : ReleaseFlags) (agent : AgentEnv)
    (agent_flags : AgentFlags) (disk : Disk) (in_data iv exec_path name : Bytes)
    → IsAead aead
    → IsHexDecoder env.decode_string
    → Encrypts env flags iv
    → Converts env flags
    → disk flags.in_file ≡ some in_data
    → flags.out_file ≡ agent.join (agent.dir exec_path) name
    → agent.read_error flags.out_file ≡ none
    → (key : Bytes) × (env.decode_string hex_encryption_password ≡ ok key)
      × (read_encrypted aead agent agent_flags key exec_path name
            (release aead env rules flags disk).1
          ≡ ok in_data)
unfolding read_encrypted read_file
read_encrypted-release aead env rules flags agent agent_flags disk in_data iv exec_path name laws
      hex x c there beside reads =
    let (key, decoded, (ct, e, d)) =
      encrypted aead env rules flags disk in_data iv agent.spare laws hex c there x in
    (key, decoded, rw e (rw (← beside) (rw (put_same disk flags.out_file (some ct)) (rw reads d))))

-- The database that the tool encrypts beside the agent is the one that the agent loads.
pub load_database-release :
    (aead : Aead) (env : ReleaseEnv) (rules : RuleEnv) (flags : ReleaseFlags) (agent : AgentEnv)
    (agent_flags : AgentFlags) (disk : Disk) (in_data iv exec_path : Bytes) (db : CramcCleanupDb)
    → IsAead aead
    → IsHexDecoder env.decode_string
    → Encrypts env flags iv
    → Converts env flags
    → disk flags.in_file ≡ some in_data
    → agent.decode_string ≡ env.decode_string
    → agent.executable ≡ ok exec_path
    → flags.out_file ≡ agent.join (agent.dir exec_path) database_path
    → agent.read_error flags.out_file ≡ none
    → agent.unmarshal_db in_data ≡ ok db
    → load_database aead agent agent_flags (release aead env rules flags disk).1 ≡ ok db
unfolding load_database
load_database-release aead env rules flags agent agent_flags disk in_data iv exec_path db laws hex x
      c there same_hex exec beside reads unmarshals =
    let (key, decoded, e) =
      read_encrypted-release aead env rules flags agent agent_flags disk in_data iv exec_path
        database_path laws hex x c there beside reads in
    let decoded' : agent.decode_string hex_encryption_password ≡ ok key =
      ap (λ (f : Bytes → Outcome Bytes). f hex_encryption_password) same_hex ∙ decoded in
    simp (decoded', exec, e) unmarshals
