-- ===== src/Lib.antt =====
-- k0smos: a minimal PID 1 that runs k0s. It reads its settings from the kernel command line, loads
-- kernel modules, mounts the pseudo-filesystems, prepares a data volume, configures the network by
-- DHCP, does what user-data asks for, supervises the k0s child, and takes the machine down in order
-- when the power button is pressed or a stop is asked for.
--
-- The files, and the code that each is about:
--   Base       what Go and its standard library give: strings as lists of bytes with the functions
--              of package strings (Text), strconv (Decimal), package path (Paths), bufio.Scanner
--              (Scan), calls on an interface to the machine as a trace of operations (Io, Sequence)
--   Config     internal/config/config.go: Parse, Config, NIC, NICs
--   Module     internal/module/module.go: the index files (Index), the resolver with its loading
--              of dependencies (Resolver), Load, LoadForDevices and LoadAll (Load)
--   Mount      internal/mount/mount.go: Ensure, MakeWritable; internal/cgroup/cgroup.go: Setup
--   Blkid      internal/blkid/blkid.go and probe.go: the probes of superblocks (Probe), Resolve,
--              ResolveWait, Identify, Blank
--   Datavol    internal/datavol/datavol.go: selectDevice and Prepare, on top of Blkid
--   Dhcp       internal/dhcp/dhcp.go: the packets a client builds, and Parse;
--              internal/dhcp/client.go: Acquire and Renew (Client)
--   Metadata   internal/metadata/plan.go: runcmd as typed actions and a workload, and
--              RunActions (Plan/Actions)
--              internal/metadata/metadata.go and source.go: a cloud-config document (Document),
--              and the drive that it is on (Source)
--   Etcd       internal/etcd/etcd.go: the command by which a controller leaves
--   Status     internal/status/status.go: the boot record and its recorder
--   Network    internal/net/net.go: the loopback and static addresses
--   Reaper     internal/reaper/reaper.go: reaping children on each trigger
--   MountInfo  internal/sys/mountinfo.go: the mount table
--   SwitchRoot internal/switchroot/switchroot.go: moving to the real root
--   Init       cmd/k0smos/init_linux.go: the boot, its wait for a shutdown and its end (Boot), the
--              search for the real root and its mount (Root), the metadata drive (Drive), and the
--              answers to the host (Requests)
--   Supervise  internal/supervise/supervise.go: the restarts of the child
--   Power      internal/power/power.go: presses of the power button
--   Control    internal/control/control.go: the requests and commands of the control port; Port is
--              the machine's end with the framing of replies, and the host's end
--   Iso9660    internal/iso9660: directory records and their names (Records), the reader
--              (Reader; iso9660.go), the writer of seed images (Image; write.go)
--   Nethub     internal/nethub/nethub.go: frames on the wire (Framing), and the hub with its
--              goroutines as a step relation (Hub)
--   Shutdown   internal/shutdown/shutdown.go: the order of unmounts, and Do
--   Tests      runs on concrete inputs, and each theorem listed below at such an input
--
-- A file beside its folder has the definitions; the files in the folder have the proofs about them,
-- but for Blkid/Probe, Control/Port, Dhcp/Client, Init/Boot, Init/Drive, Init/Requests, Init/Root,
-- Iso9660/Records, Iso9660/Reader, Iso9660/Image, Metadata/Document, Metadata/Source, Metadata/Plan,
-- Module/Index, Module/Resolver, Module/Load, Nethub/Framing and Nethub/Hub, which define as well.
-- A Go interface to the machine is an environment, a function of all earlier calls and of the call
-- at hand that answers with an error or with none; nothing is assumed of it. A function that makes
-- calls takes the trace of the calls before it and gives it back with its own behind. A Go map is a
-- list of its writes, or a chain of tests where the map is a constant. Errors are values that keep
-- what an error is about and drop the text.
--
-- Fuel: the resolver runs on one more than the number of modules of the tree, since each round
-- marks one; the scan of DHCP options and the reading of frames run on the length of the input, since
-- each round takes a byte; the supervisor and the watcher of the power button run for a given number
-- of rounds, and their theorems hold for every number that is large enough; so do those of the drain
-- of the reaper, and of the DHCP client, which waits for a reply as long as packets for others come
-- in. Modules are discovered for at most eight rounds, as in the source.
--
-- Parameters: the glob matcher, gzip, base64, YAML and the JSON encoding of the boot record are
-- functions of which nothing is assumed, and so is every call into the kernel. Letter case and white
-- space are those of ASCII, and names in a seed image are ASCII. Sizes of Go's int are not bounded,
-- but for strconv and for the times of a lease.
--
-- The boot makes one call for each part that works on the machine, and computes with the parts' own
-- definitions what it decides itself: the settings, the interfaces, the plan of the user-data, the
-- workload, the etcd leave. A part's call returns; a panic in one is not part of a boot.
--
-- Not modelled: goroutines and channels but for the network hub's (the watchers' cancellation,
-- concurrent changes of the boot record), the thin wrappers of system calls, and the host tool
-- cmd/k0smosctl. Of the boot sequence in cmd/k0smos, console lines, loadModules and configureDHCP; an
-- error's text is kept only where something depends on it.
pub mod Base
pub mod Config
pub mod Shutdown
pub mod Blkid
pub mod Datavol
pub mod Dhcp
pub mod Module
pub mod Metadata
pub mod Supervise
pub mod Mount
pub mod Power
pub mod Control
pub mod Iso9660
pub mod Nethub
pub mod Etcd
pub mod SwitchRoot
pub mod Network
pub mod Reaper
pub mod MountInfo
pub mod Init
pub mod Status
pub mod Tests
