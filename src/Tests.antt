-- ===== src/Tests.antt =====
-- Runs of the model at concrete inputs.
mod JsonCodec
mod CompressorTests
mod ExecTests
mod Fixtures
mod ApiTests
mod ActionTests
mod RunTests
mod PidsTests
mod ContainerTests
mod FileTests
mod PublishTests
mod ProfilerTests
mod JcmdTests
mod AgentTests
mod EventTests
