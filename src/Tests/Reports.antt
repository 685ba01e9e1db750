-- ===== src/Tests/Reports.antt =====
-- A report of the memory and of the volumes.
use pfe_development_of_a_mon.Prelude.{
  ◌≡◌, refl, [], ◌∷◌, map, All, text, same, ok, err, device, pos, as_u64,
}
use pfe_development_of_a_mon.Stats.Types.{
  MemoryOid, StorageOid, DbStruct, DataType, Report, number, str,
}
use pfe_development_of_a_mon.Stats.Oids.{new}
use pfe_development_of_a_mon.Stats.Usage.{
  Floats, System, memory_usage, storage_usage, add_mounts, add_mount, device_exists,
}
use pfe_development_of_a_mon.Stats.Report.{generate_report, tasks, collect}
use pfe_development_of_a_mon.Stats.Answers.{class, asked, Answers}
use pfe_development_of_a_mon.Stats.Complete.{generate_report-asked}

abbrev floats : Floats
floats = record { sub = λ a b. a; mul = λ a b. a }

abbrev sys : System
sys = record {
  cpu_load = err device;
  memory = ok (record { total = 100; free = 30 });
  networks = ok [];
  network_stats = λ n. err device;
  interfaces = [];
  mounts = ok (
      record {
        fs_mounted_from = text "/dev/sda";
        fs_type = text "ext4";
        avail = 5;
        total = 9;
        files_total = 4;
        files_avail = 3;
      }
      ∷ record {
        fs_mounted_from = text "tmpfs";
        fs_type = text "tmpfs";
        avail = 1;
        total = 1;
        files_total = 1;
        files_avail = 1;
      }
      ∷ []);
}

abbrev wanted : DbStruct
wanted = record new {
  memory = MemoryOid.used ∷ [];
  storage = StorageOid.name ∷ StorageOid.free ∷ [];
}

abbrev report : Report
report = record {
  contents =
      DataType.memory ((MemoryOid.used, number 70) ∷ [])
      ∷ DataType.storage
          (((StorageOid.name, str (text "/dev/sda")) ∷ (StorageOid.free, number 5) ∷ []) ∷ [])
      ∷ [];
  timestamp = 9;
}

generate_report-made : generate_report floats sys (pos 9) wanted ≡ ok report
unfolding generate_report tasks collect memory_usage storage_usage add_mounts add_mount
    device_exists same
generate_report-made = refl

generate_report-asked_example :
    (map class report.contents ≡ asked wanted)
    × All (Answers wanted) report.contents
    × (9 ≡ as_u64 (pos 9))
generate_report-asked_example =
    generate_report-asked floats sys wanted (pos 9) report generate_report-made
