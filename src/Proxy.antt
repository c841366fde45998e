-- ===== src/Proxy.antt =====
-- orchestration/proxy: the UDP reverse proxy. Router is the routing state and its decisions, Packet
-- the packet parser, Service the backend entrypoints over the kernel's map (Kernel), Handler the
-- queue callback, Conntrack the flush, Lifecycle startup and shutdown.
pub mod Addr
pub mod Router
pub mod Packet
pub mod Kernel
pub mod Service
pub mod Handler
pub mod Conntrack
pub mod Lifecycle
pub mod Tests
pub mod KernelTests
