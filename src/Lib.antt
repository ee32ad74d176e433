-- ===== src/Lib.antt =====
-- A model of podman machines: creating machines with drivers, keeping them in a store on the disk,
-- acting on them, and removing them.
--
-- The parts, and the files that model them:
--
-- - Go: error values and results (libmachine/mcnerror/errors.go). A function with effects is `Go W
--   A = W → Result A × W`: it takes a world to a result and the world that it leaves, and what was
--   done before an error stays done. A run-time panic is an error that no caller wraps. Go/Laws
--   takes a successful chain of calls apart.
-- - State: the states of a machine (libmachine/state/state.go).
-- - Wait: WaitForSpecificOrError, WaitForSpecific and WaitFor (libmachine/mcnutils/utils.go). The
--   loop is recursion on the attempts that are left. Wait/Polls has its outcomes.
-- - Drivers: the interface Driver as a record of operations on the world, MachineInState,
--   MustBeRunning and the helpers for ssh (libmachine/drivers/drivers.go, utils.go), and the flags
--   (libmachine/mcnflag/flag.go). Drivers/Serial: SerialDriver (libmachine/drivers/serial.go).
--   Drivers/Check: CheckDriverOptions (libmachine/drivers/check.go). Drivers/BaseDriver: what the
--   drivers share (libmachine/drivers/base.go).
-- - Provision: DetectProvisioner and WaitForPodman (libmachine/provision/provisioner.go, utils.go),
--   over a list that gives the registered provisioners in the order of the map's iteration.
--   Provision/Certificates: ConfigureAuth and the storage driver (libmachine/provision/utils.go).
--   Provision/Distributions: the provisioners that are registered (redhat.go, boot2podman.go and the
--   files that they build on). Provision/Release: the reader of /etc/os-release on bytes (libmachine/provision/os_release.go).
-- - Host: the actions on a machine (libmachine/host/host.go): Start, Stop, Kill, Restart, Upgrade,
--   Provision, ConfigureAuth and runActionForState.
-- - Disk: the file system that the store uses. Its operations are the ones of package os; each
--   takes the next fault of a stream, so that a theorem can let any of them fail, or stop halfway
--   through a write. Disk/Entries: paths and files. MkdirAll fails where a
--   file is in the way; to the other operations, what lies below a file is missing.
-- - Persist: the store. Persist/Stored: a stored host and MigrateHost (libmachine/host/migrate.go),
--   over a codec that stands for encoding/json. Persist/Hosts: the interface Store, LoadHosts and
--   LoadAllHosts (libmachine/persist/store.go). Persist/Filestore: Filestore
--   (libmachine/persist/filestore.go), as a Store on the disk. Persist/Machines: the map of
--   machines that the store stands for. The other files prove what it keeps.
-- - Rpc: a driver in another process (libmachine/drivers/rpc, libmachine/drivers/plugin). Rpc/Client
--   and Rpc/Server: the methods of both sides, with net/rpc between them as a parameter.
--   Rpc/Session: NewRPCClientDriver, the heartbeats and Close, where a send on a channel that no
--   goroutine receives from is an outcome of its own; openings and heartbeats are a sequence of
--   steps. Rpc/Flags: RPCFlags. Rpc/Plugin: the process of a driver, as the program starts it and
--   reads its address. Rpc/Register: the main loop in that process.
-- - Client: Create and performCreate (libmachine/libmachine.go), over any Store, the clock, and
--   BootstrapCertificates as a parameter. Client/Hosts: NewHost and Load, which open drivers by
--   Rpc/Session. Drivers/ErrDriver: the driver of a host whose driver is not found
--   (drivers/errdriver/error.go).
-- - Commands: targetHost (commands/commands.go) and the command rm (commands/rm.go).
--   Commands/Actions: runAction and what it runs on many machines. The goroutines are a sequence of
--   whole actions, in an order that is a parameter. Commands/Env: the command env (commands/env.go,
--   libmachine/shell/shell.go). Commands/Ls: the command ls (commands/ls.go), with Ls/Filter for
--   its filters and Ls/Items for its queries, where the order of the answers and which are late are
--   parameters. Commands/Active: active, status and url. Commands/Scp: the command line of scp
--   (commands/scp.go).
--   Commands/Create: the command create (commands/create.go), with Create/Values for the values of
--   its flags and Create/Lookup for the name of the driver.
-- - Cert: when certificates are made (libmachine/cert/bootstrap.go). ImageCache: when the image of
--   new machines is refreshed (libmachine/mcnutils/b2p.go), with ImageCache/Progress for the progress
--   of a download, whose loop has fuel for one round more than the percentage, and
--   ImageCache/Download for the download on the disk of Disk; the web is a parameter.
-- - Ssh: the arguments of the external ssh client (libmachine/ssh/client.go).
-- - VirtualBox: the driver for VirtualBox (drivers/virtualbox). VirtualBox/Vbm: running VBoxManage
--   (vbm.go), whose runs are a parameter; the other files use it through the interface VboxManager.
--   VirtualBox/Output: parseKeyValues and its regular expressions (vbm.go). VirtualBox/Version: the
--   versions that are accepted (vbm.go). VirtualBox/Flags: the settings and the flags
--   (virtualbox.go). VirtualBox/Machine: GetState, Stop, Kill and Remove. VirtualBox/Dhcp: the
--   addresses of a host-only network. VirtualBox/Network: the host-only adapters (network.go), with
--   Network/Adapters for finding or making one, Network/Servers for the DHCP servers and
--   Network/Collision for the networks of the host. VirtualBox/Ports: the forwarded port.
--   VirtualBox/Vtx: hardware virtualization (vtx.go, virtualbox_linux.go). VirtualBox/Starting:
--   setupHostOnlyNetwork, Start and Restart. VirtualBox/Disks: zeroFill, getVMDiskInfo and
--   getVMInfo (disk.go, vm.go). VirtualBox/Creating: PreCreateCheck and CreateVM;
--   VirtualBox/Making: Create. VirtualBox/Address: GetIP, GetURL and the wait for an address
--   (virtualbox.go, ip.go).
-- - Qemu: the driver for QEMU (drivers/qemu/qemu.go). Qemu/Flags: its flags and settings.
--   Qemu/Monitor: RunQMPCommand, GetState, Stop, Kill, Remove and Restart, over a socket whose
--   replies are a parameter. Qemu/Ports: parsePortRange and getAvailableTCPPortFromRange.
--   Qemu/Command: the arguments of QEMU. Qemu/Starting: cmdOutErr, WaitForTCPWithDelay and Start.
--   Qemu/Creating: Create and generateDiskImage.
-- - Tests: concrete inputs, and the theorems at them.
--
-- How the parts interact: a command asks the store for hosts and runs actions of Host on them; an
-- action asks the driver, and polls it through Wait; a creation saves the host before and after the
-- driver creates the machine. The world `W` is a parameter of all of these, and the store on the
-- disk is the `Store` whose world is `Disk`.
--
-- Bounds and fuel: the polls have the bounds of the code, 60 attempts of 3 seconds for WaitFor, and
-- so has VBoxManage, 5 runs. The loop of the VirtualBox driver's Stop has no bound; its model takes
-- fuel, one for each query of the state, and has no result where the fuel is used up. The fuel of
-- Start and Restart is that of the Stop in them. The wait for a new adapter has 10 rounds and the
-- choice of a port 11, as in the code. The loop of zeroFill takes fuel for each byte.
-- The QEMU driver's wait for a machine and its choice of a second port have no bound in the code:
-- their models take fuel, one for each attempt, and have no result where it is used up.
--
-- Parameters: an interface of the driver whose implementation calls another library is a record of
-- functions: NetLibrary for the parsers and printers of package net, HostInterfaces, Parts for what
-- a start uses, Workshop for what a creation uses. Addresses are those of IPv4, ToLower and
-- TrimSpace work on ASCII, and a map is a list in the order of its iteration.
--
-- Not modelled: lines of os-release of more than 64 KiB, at which the code stops, logging, the
-- texts of formatted errors beyond their first part, the command line, the native ssh client, the
-- requests for releases, and the making of disk images and certificates. JSON, regular expressions
-- beyond those that are written out, and the operations of package os are known by what the model
-- states of them.
pub mod Base
pub mod State
pub mod Go
pub mod Wait
pub mod Drivers
pub mod Rpc
pub mod Qemu
pub mod Provision
pub mod Ssh
pub mod Host
pub mod Cert
pub mod ImageCache
pub mod Disk
pub mod Persist
pub mod Client
pub mod Commands
pub mod VirtualBox
pub mod Tests
