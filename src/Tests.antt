-- ===== src/Tests.antt =====
-- Concrete inputs, runs and instances of the theorems, by component.
mod Sorting
mod PodSamples
mod PodTests
mod VerdictTests
mod InformerTests
mod EventTests
mod ControllerTests
mod ConfigTests
mod HandlerTests
mod CommandTests
mod WatchTests
mod AppTests
mod SecretTests
mod RaceTests
mod SqlTests
mod UtilsTests
mod WorkerTests
