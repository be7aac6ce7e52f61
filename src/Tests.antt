-- ===== src/Tests.antt =====
-- Runs of the modelled code on small inputs, and each theorem with hypotheses at such an input.
mod Histograms
mod Network
mod Programs
mod Probes
mod Watching
mod Pools
mod Servers
mod Tcp
mod Composed
mod Pipe
mod Counter
mod Intervals
mod Pooled
