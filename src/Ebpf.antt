-- ===== src/Ebpf.antt =====
-- src/filter/ebpf_loader.c: the program that the kernel should run. Nothing is loaded into the kernel and
-- no map of it is written; what is left are the results. The commands that `system` gets are recorded.
use anti.Base.{ℕ, Bool, true, List, [], ◌∷◌, Option, none, some, if◌then◌else◌, ℤ, success, failure}
use anti.Addr.{IpAddr}

pub record EbpfProgram : Type 0 where
  pub filename : Option (List ℕ)
  pub interface : Option (List ℕ)
  pub loaded : Bool

-- `ip link set dev … xdp off`, with the interface.
pub data EbpfCommand : Type 0 where
  xdp_off : Option (List ℕ) → EbpfCommand

-- The successes of `calloc` and of each `strdup`.
unfoldable pub ebpf_load_program : List ℕ → List ℕ → Bool → Bool → Bool → Option EbpfProgram
ebpf_load_program filename interface granted copied interface_copied =
    if granted
    then some (record {
      filename = if copied then some filename else none;
      interface = if interface_copied then some interface else none;
      loaded = true;
    })
    else none

-- The commands that it runs before the program is freed.
unfoldable pub ebpf_unload_program : Option EbpfProgram → List EbpfCommand
ebpf_unload_program none = []
ebpf_unload_program (some prog) = if prog.loaded then xdp_off prog.interface ∷ [] else []

-- The program, the name of the map, the key and the value may each be NULL.
unfoldable pub ebpf_update_map :
    Option EbpfProgram → Option (List ℕ) → Option (List ℕ) → Option (List ℕ) → ℤ
ebpf_update_map (some prog) (some name) (some key) (some v) = success
ebpf_update_map prog name key v = failure

unfoldable pub ebpf_delete_map : Option EbpfProgram → Option (List ℕ) → Option (List ℕ) → ℤ
ebpf_delete_map (some prog) (some name) (some key) = success
ebpf_delete_map prog name key = failure

-- The result, with what `*packets` and `*bytes` become.
unfoldable pub ebpf_get_map_stats : Option EbpfProgram → Option (List ℕ) → ℤ × Option (ℕ × ℕ)
ebpf_get_map_stats (some prog) (some name) = (success, some (0, 0))
ebpf_get_map_stats prog name = (failure, none)

-- The key and the value that it gives to `ebpf_update_map` are not NULL.
unfoldable pub ebpf_blacklist_ip : Option EbpfProgram → Option IpAddr → ℤ
ebpf_blacklist_ip (some prog) (some ip) = success
ebpf_blacklist_ip prog ip = failure

unfoldable pub ebpf_whitelist_ip : Option EbpfProgram → Option IpAddr → ℤ
ebpf_whitelist_ip (some prog) (some ip) = success
ebpf_whitelist_ip prog ip = failure
