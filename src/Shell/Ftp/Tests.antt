-- ===== src/Shell/Ftp/Tests.antt =====
-- A node with address 9 that lists the images of node 5.
use k_fsw.Base.{◌≡◌, refl, false, none, some, [], ◌∷◌, ok}
use k_fsw.Text.{codes, str_eq}
use k_fsw.Text.Strtoul.{strtoul}
use k_fsw.Shell.Service.{ftp_list, ftp_stat, ftp_mkdir, ftp_put, ftp_get}
use k_fsw.Shell.{requests}
use k_fsw.Shell.Remote.{parse_node}
use k_fsw.Diagnostics.Disk.{disk}
use k_fsw.Shell.Ftp.{
  FtpShell, entry_kind, list_directory, optional_node, cmd_ftp_ls, cmd_ftp_stat, cmd_ftp_mkdir,
}
use k_fsw.Shell.Ftp.Transfer.{cmd_ftp_get, cmd_ftp_put}
use k_fsw.Shell.Ftp.Once.{Once, named_node, acting_node, path_words, list_words, ftp_commands-Once}

abbrev shell : FtpShell
shell = record {
  parts = record { strtoul = λ text. ((strtoul 64 text).value, ok); broadcast_address = 31 };
  fs = disk;
  boot_path = codes "boot";
  hk_path = codes "hk";
  proc_path = codes "proc";
  result = λ h c. ok;
  own_address = λ h. 9;
  entries = λ h. [];
  stat = λ h. record { is_directory = false; size = 0; crc32 = 0 };
  transfer = λ h. record { bytes = 0; crc32 = 0; duration_ms = 0 };
}

kind_of_image : entry_kind shell false (codes "//boot/") ≡ codes "img"
unfolding entry_kind str_eq
kind_of_image = refl

listed :
    requests (cmd_ftp_ls shell (some (codes "5")) (some (codes "boot")) []).1
    ≡ ftp_list 5 (codes "boot") ∷ []
unfolding cmd_ftp_ls list_directory optional_node parse_node strtoul
listed = refl

ftp_commands-Once_example :
    let w = path_words shell (codes "5") none in
    let l = list_words shell (some (codes "5")) none in
    Once shell
      (ftp_get (named_node shell (codes "5")) (codes "a") (codes "b"))
      []
      (cmd_ftp_get shell (codes "5") (codes "a") (codes "b") [])
    × Once shell
        (ftp_put (named_node shell (codes "5")) (codes "a") (codes "b"))
        []
        (cmd_ftp_put shell (codes "5") (codes "a") (codes "b") [])
    × Once shell
        (ftp_stat (acting_node shell [] w.0) w.1)
        []
        (cmd_ftp_stat shell (codes "5") none [])
    × Once shell
        (ftp_mkdir (acting_node shell [] w.0) w.1)
        []
        (cmd_ftp_mkdir shell (codes "5") none [])
    × Once shell
        (ftp_list (acting_node shell [] l.0) l.1)
        []
        (cmd_ftp_ls shell (some (codes "5")) none [])
ftp_commands-Once_example =
    ftp_commands-Once shell (codes "5") (codes "a") (codes "b") (some (codes "5")) none []
