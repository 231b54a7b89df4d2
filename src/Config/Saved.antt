-- ===== src/Config/Saved.antt =====
-- The configuration file: what is written is read again (config/config.go).
use kubewatch.Common.{
  String, arith, eq_iff, if◌then◌else◌, inr, int_eq, nat_eq, none, not, refl, some, string_eq, true,
  ◌==◌, ◌∙◌, ◌≡◌, ◌≢◌,
}
use kubewatch.Config.{
  Config, Environment, Files, config_path, create_if_not_exist, get_config_file, load, new_config,
  read_file, write, zero_config,
}

-- What the code relies on of files: a file that was written exists and has the text
-- written, and a file that was created exists and is empty.
pub record FilesLaws (fs : Files) : Type 0 where
  pub written :
      (path b : String) (disk : fs.Disk)
      → (fs.write_file path b disk).0 ≡ none
      → (fs.stat path (fs.write_file path b disk).1 ≡ none)
        × (fs.open_and_read path (fs.write_file path b disk).1 ≡ inr b)
  pub made :
      (path : String) (disk : fs.Disk)
      → (fs.create path disk).0 ≡ none
      → (fs.stat path (fs.create path disk).1 ≡ none)
        × (fs.open_and_read path (fs.create path disk).1 ≡ inr "")

module _ (fs : Files) (env : Environment) where
  load_found :
      (c : Config) (disk disk' : fs.Disk) (b : String)
      → create_if_not_exist fs env disk ≡ (none, disk')
      → fs.stat (config_path fs env) disk' ≡ none
      → fs.open_and_read (config_path fs env) disk' ≡ inr b
      → load fs env c disk ≡ (
          if not (b == "")
          then ((fs.unmarshal b c).0, (fs.unmarshal b c).1, disk')
          else (none, c, disk'))
  unfolding load read_file get_config_file
  load_found c disk disk' b p s r = rw (load, p, read_file, get_config_file, s, r) refl

module _ (fs : Files) (laws : FilesLaws fs) (env : Environment) where
  -- Where yaml.v2 prints a configuration as a text that is not empty and reads it again from that
  -- text, and the file of the configuration exists, a configuration that is written without an
  -- error is the one that is then read, without an error and with no change to the disk.
  pub new_config-write :
      (c : Config) (disk : fs.Disk) (b : String)
      → fs.marshal c ≡ inr b
      → b ≢ ""
      → fs.unmarshal b zero_config ≡ (none, c)
      → fs.stat (config_path fs env) disk ≡ none
      → (write fs env c disk).0 ≡ none
      → let disk' = (write fs env c disk).1 in new_config fs env disk' ≡ (none, c, disk')
  unfolding write new_config load create_if_not_exist get_config_file
  new_config-write c disk b m full again e h =
      let path = config_path fs env in
      let disk' = (fs.write_file path b disk).1 in
      let saved = laws.written path b disk (rw (write, m, get_config_file, e) at h) in
      rw (write, m, get_config_file, e)
        (load_found fs env zero_config disk' disk' b (rw (create_if_not_exist, saved.0) refl)
            saved.0 saved.1
          ∙ ground (arith, eq_iff b "", full, again))

  -- Where the file does not exist and can be created, reading makes it, and gives the empty
  -- configuration without an error.
  pub new_config-create :
      (disk : fs.Disk) {failure : fs.FileError}
      → fs.stat (config_path fs env) disk ≡ some failure
      → fs.is_not_exist failure ≡ true
      → (fs.create (config_path fs env) disk).0 ≡ none
      → new_config fs env disk ≡ (none, zero_config, (fs.create (config_path fs env) disk).1)
  unfolding new_config load create_if_not_exist get_config_file
  new_config-create disk e n h =
      let path = config_path fs env in
      let made = laws.made path disk h in
      let disk' = (fs.create path disk).1 in
      load_found fs env zero_config disk disk' ""
        (rw (create_if_not_exist, e, n) (λ i. (h i, disk'))) made.0 made.1

  -- Where the file does not exist, writing does not make it: it writes to the empty path, if the
  -- configuration can be marshalled at all.
  pub write-no_file :
      (c : Config) (disk : fs.Disk) {failure : fs.FileError} {b : String}
      → fs.stat (config_path fs env) disk ≡ some failure
      → fs.marshal c ≡ inr b
      → write fs env c disk ≡ fs.write_file "" b disk
  unfolding write get_config_file
  write-no_file c disk e h = rw (write, h, get_config_file, e) refl
